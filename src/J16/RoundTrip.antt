-- ===== src/J16/RoundTrip.antt =====
-- internal/ocpp/j16/frame.go: what `decode` makes of a marshalled frame, and of any other value.
use charger_simulator.Common.{
  ℕ, zero, suc, String, List, [], ◌∷◌, some, ◌≡◌, refl, ap, arith, inl, inr, Option-cases, ◌↔◌,
}
use charger_simulator.Json.{Json, Items, null, num, arr, to_string, to_int, list_of}
use charger_simulator.Common.Int.{ℤ, pos}
use charger_simulator.J16.Frame.{
  DecodedFrame, a_call, a_result, an_error, ok, type_id, call, call_result, call_error, or_empty,
  marshal_call, marshal_result, marshal_error, decode, dispatch, decode_call, decode_result,
  decode_error, decode_elements,
}

abbrev pub marshal : DecodedFrame → Json
marshal (a_call c) = marshal_call c
marshal (a_result r) = marshal_result r
marshal (an_error e) = marshal_error e

-- The frame with its empty payload replaced by `{}`, as the other side sees it.
abbrev pub filled : DecodedFrame → DecodedFrame
filled (a_call c) = a_call (record c { payload = some (or_empty c.payload) })
filled (a_result r) = a_result (record r { payload = some (or_empty r.payload) })
filled (an_error e) = an_error (record e { error_details = some (or_empty e.error_details) })

-- Every marshalled frame is decoded to itself, an empty payload read as `{}`.
pub decode-marshal : (f : DecodedFrame) → decode (some (marshal f)) ≡ ok (filled f)
unfolding decode marshal_call marshal_result marshal_error
decode-marshal (a_call c) = refl
decode-marshal (a_result r) = refl
decode-marshal (an_error e) = refl

-- The frame formats of OCPP-J: an array of a fixed length, headed by its type id, with strings (or
-- `null`, read as the empty string) where the format has text and any value as payload.
pub data Spells (js : List Json) (f : DecodedFrame) : Type 0 where
  spells_call :
      (u a p : Json) (id action : String)
      → js ≡ num (type_id call) ∷ u ∷ a ∷ p ∷ []
      → to_string u ≡ some id
      → to_string a ≡ some action
      → f ≡ a_call (record { message_id = id; action = action; payload = some p })
      → Spells js f
  spells_result :
      (u p : Json) (id : String)
      → js ≡ num (type_id call_result) ∷ u ∷ p ∷ []
      → to_string u ≡ some id
      → f ≡ a_result (record { message_id = id; payload = some p })
      → Spells js f
  spells_error :
      (u c d details : Json) (id code desc : String)
      → js ≡ num (type_id call_error) ∷ u ∷ c ∷ d ∷ details ∷ []
      → to_string u ≡ some id
      → to_string c ≡ some code
      → to_string d ≡ some desc
      → f
        ≡ an_error (record {
          message_id = id;
          error_code = code;
          error_description = desc;
          error_details = some details;
        })
      → Spells js f

decode_complete :
    (js : Items) (f : DecodedFrame) → Spells (list_of js) f → decode (some (arr js)) ≡ ok f
unfolding decode decode_elements dispatch decode_call decode_result decode_error
decode_complete js f (spells_call u a p id action e hu ha hf) = rw (e, hu, ha, hf) refl
decode_complete js f (spells_result u p id e hu hf) = rw (e, hu, hf) refl
decode_complete js f (spells_error u c d details id code desc e hu hc hd hf) =
    rw (e, hu, hc, hd, hf) refl

-- A `null` is read as 0, so a type id that is not 0 is a number literal.
to_int-num : (t : Json) (n : ℕ) → to_int t ≡ some (pos (suc n)) → t ≡ num (pos (suc n))
to_int-num (num i) n e = ground (arith, e)
to_int-num null n e = ground (arith, e)
to_int-num _ n e = cc e

dispatch_sound :
    (t u : Json) (mt : ℤ) (id : String) (rest : List Json) (f : DecodedFrame)
    → to_int t ≡ some mt
    → to_string u ≡ some id
    → dispatch mt id rest ≡ ok f
    → Spells (t ∷ u ∷ rest) f
unfolding dispatch decode_call decode_result decode_error
dispatch_sound t u (pos (suc (suc zero))) id (a ∷ p ∷ []) f ht hu e =
    elim (Option-cases (to_string a)) [
      | inl bad ↦ cc (rw bad at e)
      | inr (action, ha) ↦
          spells_call u a p id action (ap (λ x. x ∷ u ∷ a ∷ p ∷ []) (to_int-num t 1 ht)) hu ha
            (cc (rw ha at e))
    ]
dispatch_sound t u (pos (suc (suc (suc zero)))) id (p ∷ []) f ht hu e =
    spells_result u p id (ap (λ x. x ∷ u ∷ p ∷ []) (to_int-num t 2 ht)) hu (cc e)
dispatch_sound t u (pos (suc (suc (suc (suc zero))))) id (c ∷ d ∷ details ∷ []) f ht hu e =
    elim (Option-cases (to_string c)) [
      | inl bad ↦ cc (rw bad at e)
      | inr (code, hc) ↦ elim (Option-cases (to_string d)) [
        | inl bad ↦ cc (rw (hc, bad) at e)
        | inr (desc, hd) ↦
            spells_error u c d details id code desc
              (ap (λ x. x ∷ u ∷ c ∷ d ∷ details ∷ []) (to_int-num t 3 ht)) hu hc hd
              (cc (rw (hc, hd) at e))
      ]
    ]
dispatch_sound t u mt id rest f ht hu e = cc e

elements_sound : (js : List Json) (f : DecodedFrame) → decode_elements js ≡ ok f → Spells js f
unfolding decode_elements
elements_sound (t ∷ u ∷ v ∷ rest) f e = elim (Option-cases (to_int t)) [
  | inl bad ↦ cc (rw bad at e)
  | inr (mt, ht) ↦ elim (Option-cases (to_string u)) [
    | inl bad ↦ cc (rw (ht, bad) at e)
    | inr (id, hu) ↦ dispatch_sound t u mt id (v ∷ rest) f ht hu (rw (ht, hu) at e)
  ]
]
elements_sound _ f e = cc e

-- `decode` accepts exactly the arrays in one of the three formats, and reads from each the frame that
-- it spells.
pub decode_lem :
    (js : Items) (f : DecodedFrame) → (decode (some (arr js)) ≡ ok f) ↔ Spells (list_of js) f
unfolding decode
decode_lem js f = (elements_sound (list_of js) f, decode_complete js f)
