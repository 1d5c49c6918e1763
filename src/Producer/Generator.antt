-- ===== src/Producer/Generator.antt =====
-- pv-producer/internal/generator/generator.go. What math/rand, uuid and the clock answer during one
-- call is a record of draws: any number stands for a draw, and is brought into the range asked for.
pub mod Accepted
pub mod Copies
pub mod Pace
use Prim.Native.String.{◌++◌}
use wallet_service.Base.{
  ℕ, zero, suc, ◌+◌, ◌-◌, ◌*◌, ◌/◌, ◌%◌, ◌^◌, String, Bool, true, false, ◌&&◌, ltb, leb, ◌==◌, ◌=ₛ◌,
  Option, none, some, List, [], ◌∷◌, length, if◌then◌else◌,
}
use wallet_service.Base.Int.{ℤ, pos, negsuc, leb_ℤ}
use wallet_service.Producer.Event.{PageViewEvent}

-- rand.Float64 is a multiple of 2^-53. The rates are float64 constants, here in units of 2^-59.
abbrev pub below : ℕ → ℕ → Bool
below roll rate = ltb (roll % 2 ^ 53 * 64) rate

-- 0.01, 0.05 and 0.10
abbrev pub one_percent : ℕ
one_percent = 5764607523034235

abbrev pub five_percent : ℕ
five_percent = 28823037615171176

abbrev pub ten_percent : ℕ
ten_percent = 57646075230342352

-- `mode` is regular, burst or night. `last_event` shares its event with the caller, who only reads it.
pub record Generator : Type 0 where
  pub mode : String
  pub rps : ℤ
  pub duplicate_rate : ℕ
  pub last_event : Option PageViewEvent
  pub last_event_id : String
  pub event_counter : ℕ

abbrev pub new_generator : String → ℤ → Generator
new_generator mode rps = record {
  mode = mode;
  rps = rps;
  duplicate_rate = one_percent;
  last_event = none;
  last_event_id = "";
  event_counter = 0;
}

pub record Draws : Type 0 where
  pub duplicate_roll : ℕ
  pub event_uuid : String
  pub page : ℕ
  pub user_uuid : String
  pub now : ℕ
  pub agent : ℕ
  pub address : ℕ × ℕ × ℕ × ℕ
  pub region : ℕ
  pub error_roll : ℕ
  pub error_type : ℕ
  pub negative : ℕ
  pub bounce_roll : ℕ
  pub duration : ℕ

-- `xs[i]`, within the bounds.
abbrev pub get_or : List String → ℕ → String → String
get_or [] i d = d
get_or (x ∷ xs) zero d = x
get_or (x ∷ xs) (suc i) d = get_or xs i d

-- `xs[rand.Intn(len(xs))]`
abbrev pub choose : List String → ℕ → String
choose xs draw = get_or xs (draw % length xs) ""

abbrev pub pages : List String
pages =
    "/home" ∷ "/products" ∷ "/about" ∷ "/contact" ∷ "/cart" ∷ "/checkout" ∷ "/profile" ∷ "/settings"
    ∷ "/help" ∷ "/search" ∷ []

abbrev pub agents : List String
agents =
    "Mozilla/5.0 (Windows NT 10.0; Win64; x64) AppleWebKit/537.36"
    ∷ "Mozilla/5.0 (Macintosh; Intel Mac OS X 10_15_7) AppleWebKit/537.36"
    ∷ "Mozilla/5.0 (X11; Linux x86_64) AppleWebKit/537.36" ∷ []

abbrev pub regions : List String
regions = "US" ∷ "EU" ∷ "ASIA" ∷ "LATAM" ∷ "AFRICA" ∷ []

unfoldable pub generate_page_id : ℕ → String
generate_page_id draw = choose pages draw

unfoldable pub random_user_agent : ℕ → String
random_user_agent draw = choose agents draw

unfoldable pub random_region : ℕ → String
random_region draw = choose regions draw

abbrev pub hex_digits : List String
hex_digits =
    "0" ∷ "1" ∷ "2" ∷ "3" ∷ "4" ∷ "5" ∷ "6" ∷ "7" ∷ "8" ∷ "9" ∷ "a" ∷ "b" ∷ "c" ∷ "d" ∷ "e" ∷ "f"
    ∷ []

-- "%x" of a number below 16 ^ (more + 1).
unfoldable pub hex : ℕ → ℕ → String
hex zero n = get_or hex_digits (n % 16) ""
hex (suc more) n =
    let front = hex more (n / 16) in
    let digit = get_or hex_digits (n % 16) "" in if ltb n 16 then digit else front ++ digit

unfoldable pub random_ip : ℕ × ℕ × ℕ × ℕ → String
unfolding hex
random_ip (a, b, c, d) =
    "2001:db8::"
    ++ hex 3 (a % 65536)
    ++ ":"
    ++ hex 3 (b % 65536)
    ++ ":"
    ++ hex 3 (c % 65536)
    ++ ":"
    ++ hex 3 (d % 65536)

-- `s[:n]` of a text that is long enough.
abbrev pub take_chars : ℕ → String → String
take_chars zero s = String.[]
take_chars (suc n) String.[] = String.[]
take_chars (suc n) (String.◌∷◌ c s) = String.◌∷◌ c (take_chars n s)

unfoldable pub is_error : Draws → Bool
is_error d = below d.error_roll five_percent

unfoldable pub is_bounce : Draws → Bool
is_bounce d = below d.bounce_roll ten_percent

-- `-n`
abbrev pub negated : ℕ → ℤ
negated zero = pos 0
negated (suc n) = negsuc n

-- By the kind of the error: an empty page, a negative duration, and no change.
abbrev pub spoil : ℕ → ℕ → PageViewEvent → PageViewEvent
spoil zero draw base = record base { page_id = "" }
spoil (suc zero) draw base = record base { view_duration = negated (draw % 1000) }
spoil (suc (suc _)) draw base = base

unfoldable pub generate_error_event : Draws → PageViewEvent → PageViewEvent
generate_error_event d base = spoil (d.error_type % 3) d.negative base

-- The event before its duration is chosen.
abbrev pub base_event : Draws → PageViewEvent
base_event d = record {
  event_id = d.event_uuid;
  page_id = generate_page_id d.page;
  user_id = take_chars 8 d.user_uuid;
  view_duration = pos 0;
  timestamp = d.now;
  user_agent = random_user_agent d.agent;
  ip_address = random_ip d.address;
  region = random_region d.region;
  is_bounce = false;
}

-- A bounce takes less than 5 seconds, and any other view 10 to 600.
abbrev pub with_duration : Bool → ℕ → PageViewEvent → PageViewEvent
with_duration true draw ev = record ev { view_duration = pos (draw % 5000); is_bounce = true }
with_duration false draw ev = record ev {
  view_duration = pos (10000 + draw % 590000);
  is_bounce = false;
}

unfoldable pub generate_new : Draws → PageViewEvent
unfolding generate_error_event
generate_new d =
    if is_error d
    then generate_error_event d (base_event d)
    else with_duration (is_bounce d) d.duration (base_event d)

abbrev pub counted : Generator → Generator
counted g = record g { event_counter = suc g.event_counter }

abbrev pub fresh : PageViewEvent → Generator → PageViewEvent × Generator
fresh ev g = (ev, record g { last_event = some ev; last_event_id = ev.event_id })

-- A small roll repeats the last event, where there is one.
abbrev pub repeat_or :
    Bool → Option PageViewEvent → PageViewEvent → Generator → PageViewEvent × Generator
repeat_or true (some last) ev g = (record last { event_id = g.last_event_id }, g)
repeat_or true none ev g = fresh ev g
repeat_or false last ev g = fresh ev g

unfoldable pub generate : Draws → Generator → PageViewEvent × Generator
unfolding generate_new
generate d g =
    repeat_or (below d.duplicate_roll g.duplicate_rate) g.last_event (generate_new d) (counted g)

abbrev pub positive_rps : ℤ → ℤ
positive_rps rps = if leb_ℤ rps (pos 0) then pos 5 else rps

-- `1000 / rps` for the positive rates that stand here, and at least 100.
abbrev pub interval_ms : ℤ → ℕ
interval_ms (pos n) = let ms = 1000 / n in if ltb ms 100 then 100 else ms
interval_ms (negsuc n) = 100

-- In milliseconds. A rate that is not positive is replaced by 5.
unfoldable pub get_interval : Generator → ℕ × Generator
get_interval g =
    if g.mode =ₛ "regular"
    then (let rps = positive_rps g.rps in (interval_ms rps, record g { rps = rps }))
    else (if g.mode =ₛ "burst"
        then (2000, g)
        else (if g.mode =ₛ "night" then (10000, g) else (1000, g)))

abbrev pub set_mode : String → Generator → Generator
set_mode mode g = record g { mode = mode }

abbrev pub set_rps : ℤ → Generator → Generator
set_rps rps g = record g { rps = rps }
