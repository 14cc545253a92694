-- ===== src/Api/Strings.antt =====
-- The functions of the package `strings` that internal/api/server.go and cmd/stub-cms/main.go call.
use Prim.Native.Char.{code}
use charger_simulator.Common.{ℕ, String, str_eq, Bool, false, ◌&&◌, ◌||◌, leb, ◌==◌, if◌then◌else◌}

-- `unicode.IsSpace`.
abbrev pub is_space : ℕ → Bool
is_space c =
    (leb 9 c && leb c 13)
    || (c == 32
        || (c == 133
            || (c == 160
                || (c == 5760
                    || ((leb 8192 c && leb c 8202)
                        || (c == 8232
                            || (c == 8233 || (c == 8239 || (c == 8287 || c == 12288)))))))))

abbrev pub trim_left : (ℕ → Bool) → String → String
trim_left p String.[] = ""
trim_left p (String.◌∷◌ c s) =
    let rest = trim_left p s in if p (code c) then rest else String.◌∷◌ c s

abbrev pub trim_right : (ℕ → Bool) → String → String
trim_right p String.[] = ""
trim_right p (String.◌∷◌ c s) =
    let rest = trim_right p s in if p (code c) && str_eq rest "" then "" else String.◌∷◌ c rest

abbrev pub trim_space : String → String
trim_space s = trim_right is_space (trim_left is_space s)

-- `strings.TrimRight(s, "/")`.
abbrev pub trim_slashes : String → String
trim_slashes = trim_right (λ c. c == 47)

-- The texts that `strings.ToUpper` makes "AC" and "DC".
abbrev pub upper_is_ac : String → Bool
upper_is_ac s = str_eq s "AC" || (str_eq s "Ac" || (str_eq s "aC" || str_eq s "ac"))

abbrev pub upper_is_dc : String → Bool
upper_is_dc s = str_eq s "DC" || (str_eq s "Dc" || (str_eq s "dC" || str_eq s "dc"))

-- `strings.TrimPrefix` and `strings.Contains`.
abbrev trim_prefix_or : String → String → String → String
trim_prefix_or whole String.[] s = s
trim_prefix_or whole (String.◌∷◌ c p) (String.◌∷◌ d s) =
    let rest = trim_prefix_or whole p s in if code c == code d then rest else whole
trim_prefix_or whole _ _ = whole

abbrev pub trim_prefix : String → String → String
trim_prefix p s = trim_prefix_or s p s

abbrev pub has_slash : String → Bool
has_slash String.[] = false
has_slash (String.◌∷◌ c s) = let rest = has_slash s in (code c == 47) || rest
