-- ===== src/Session/Key.antt =====
-- internal/session/store.go: the keys of the map of sessions.
use Prim.Native.Char.{code, char}
use Prim.Native.String.{◌++◌}
use Prim.Native.String.append.{nil, cons}
use charger_simulator.Common.{
  String, true, false, Option, none, some, ◌==◌, ◌≡◌, ◌↔◌, refl, sym, ap, ◌∙◌, arith, eq_iff,
  if◌then◌else◌,
}
use charger_simulator.Common.Int.{ℤ, negsuc, eq_ℤ_iff}
use charger_simulator.Common.Itoa.{itoa}
use charger_simulator.Common.Decimal.{atoi, atoi-itoa, lacks, itoa-lacks}
use charger_simulator.Session.Disk.{OpenSession}
use charger_simulator.Session.Store.{has_key}

-- `fmt.Sprintf("%s\x1f%d", cpid, connectorID)`.
unfoldable pub key : String → ℤ → String
key cpid id = cpid ++ ("\u{1f}" ++ itoa id)

key_test : key "CP1" (negsuc 1) ≡ "CP1\u{1f}-2"
unfolding key itoa
key_test = refl

-- A text cut at its last separator.
extend :
    (String → String)
    → Option (String × String)
    → Option (String × String)
    → Option (String × String)
extend f other none = other
extend f other (some (s, t)) = some (f s, t)

cut : String → Option (String × String)
unfolding extend
cut String.[] = none
cut (String.◌∷◌ c s) =
    extend (λ p. String.◌∷◌ c p) (if code c == 31 then some ("", s) else none) (cut s)

cut-lacks : (s : String) → lacks 31 s ≡ true → cut s ≡ none
unfolding cut lacks
cut-lacks String.[] l = refl
cut-lacks (String.◌∷◌ c s) l =
    let other : (code c == 31) ≡ false = ground (arith, l) in
    rw (cut-lacks s (ground (arith, l)), other) refl

cut-append : (a t : String) → lacks 31 t ≡ true → cut (a ++ String.◌∷◌ (char 31 tt) t) ≡ some (a, t)
unfolding cut
cut-append String.[] t l = rw (nil (String.◌∷◌ (char 31 tt) t), cut-lacks t l) refl
cut-append (String.◌∷◌ c a) t l = rw (cons c a (String.◌∷◌ (char 31 tt) t), cut-append a t l) refl

cut-key : (cpid : String) (id : ℤ) → cut (key cpid id) ≡ some (cpid, itoa id)
unfolding key
cut-key cpid id =
    ap (λ t. cut (cpid ++ t))
      (cons (char 31 tt) "" (itoa id) ∙ ap (λ t. String.◌∷◌ (char 31 tt) t) (nil (itoa id)))
    ∙ cut-append cpid (itoa id) (itoa-lacks 31 id (omega arith))

-- The parts of a cut text.
before : Option (String × String) → String
before none = ""
before (some (s, t)) = s

after : Option (String × String) → String
after none = ""
after (some (s, t)) = t

key-inj : (a b : String) (i j : ℤ) → key a i ≡ key b j → (a ≡ b) × (i ≡ j)
unfolding before after
key-inj a b i j e =
    let cuts = sym (cut-key a i) ∙ (ap cut e ∙ cut-key b j) in
    (ap before cuts, sym (atoi-itoa i) ∙ (ap (λ o. atoi (after o)) cuts ∙ atoi-itoa j))

has_key-parts :
    (cpid : String) (id : ℤ) (r : OpenSession)
    → (has_key cpid id r ≡ true) ↔ ((r.cpid ≡ cpid) × (r.connector_id ≡ id))
has_key-parts cpid id r = ground (arith, eq_iff r.cpid cpid, eq_ℤ_iff r.connector_id id)

-- Two sessions have the same key in the map exactly if they are of the same charge point and the same
-- connector: whatever the charge point's id is, separators in it included, the joined text
-- determines both parts. So the model may compare the parts.
pub has_key_lem :
    (cpid : String) (id : ℤ) (r : OpenSession)
    → (has_key cpid id r ≡ true) ↔ (key r.cpid r.connector_id ≡ key cpid id)
has_key_lem cpid id r = (
  λ h. let (c, i) = (has_key-parts cpid id r).0 h in rw (c, i) refl,
  λ e. (has_key-parts cpid id r).1 (key-inj r.cpid cpid r.connector_id id e),
)
