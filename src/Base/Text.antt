-- ===== src/Base/Text.antt =====
-- Texts as the services use them: emptiness, defaults, and the broker lists that every service
-- splits at commas and trims.
pub mod Brokers
use Prim.Native.Char.{Char, code}
use wallet_service.Base.{
  ℕ, String, Bool, true, false, ◌≡◌, refl, ◌||◌, ◌&&◌, leb, ◌==◌, arith, List, [], ◌∷◌,
  if◌then◌else◌,
}

-- `s == ""`
unfoldable pub is_empty : String → Bool
is_empty String.[] = true
is_empty (String.◌∷◌ c s) = false

-- `s` if it is not empty, and the default else: `if v == "" { v = d }`.
unfoldable pub or_default : String → String → String
unfolding is_empty
or_default s d = if is_empty s then d else s

pub or_default-full : (s d : String) → is_empty d ≡ false → is_empty (or_default s d) ≡ false
unfolding or_default
or_default-full s d h = ground arith

-- unicode.IsSpace
unfoldable pub is_space : ℕ → Bool
is_space c =
    (leb 9 c && leb c 13)
    || c == 32
    || c == 133
    || c == 160
    || c == 5760
    || (leb 8192 c && leb c 8202)
    || c == 8232
    || c == 8233
    || c == 8239
    || c == 8287
    || c == 12288

unfoldable pub trim_left : String → String
unfolding is_space
trim_left String.[] = String.[]
trim_left (String.◌∷◌ c s) = if is_space (code c) then trim_left s else String.◌∷◌ c s

abbrev keep_unless_blank : Char → String → String
keep_unless_blank c String.[] = if is_space (code c) then String.[] else String.◌∷◌ c String.[]
keep_unless_blank c (String.◌∷◌ d s) = String.◌∷◌ c (String.◌∷◌ d s)

unfoldable pub trim_right : String → String
unfolding is_space
trim_right String.[] = String.[]
trim_right (String.◌∷◌ c s) = keep_unless_blank c (trim_right s)

-- strings.TrimSpace
unfoldable pub trim_space : String → String
unfolding trim_left trim_right
trim_space s = trim_left (trim_right s)

abbrev push_char : Char → List String → List String
push_char c [] = String.◌∷◌ c String.[] ∷ []
push_char c (s ∷ ss) = String.◌∷◌ c s ∷ ss

-- strings.Split(s, ",")
unfoldable pub split_commas : String → List String
split_commas String.[] = String.[] ∷ []
split_commas (String.◌∷◌ c s) =
    let rest = split_commas s in if code c == b',' then String.[] ∷ rest else push_char c rest

unfoldable pub trimmed : List String → List String
unfolding trim_space is_empty
trimmed [] = []
trimmed (b ∷ bs) =
    let rest = trimmed bs in if is_empty (trim_space b) then rest else trim_space b ∷ rest

-- The loop over `strings.Split(brokers, ",")` that keeps what is not blank.
unfoldable pub broker_list : String → List String
unfolding split_commas trimmed
broker_list brokers = trimmed (split_commas brokers)

broker_list_runs : broker_list " kafka:9092,, b:1 ," ≡ "kafka:9092" ∷ "b:1" ∷ []
unfolding broker_list
broker_list_runs = refl
