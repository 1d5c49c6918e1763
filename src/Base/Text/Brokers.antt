-- ===== src/Base/Text/Brokers.antt =====
-- The broker lists of the configurations.
use wallet_service.Base.{String, ◌≡◌, refl, Bool, true, false, List, [], ◌∷◌, All, if◌then◌else◌}
use wallet_service.Base.Text.{is_empty, trim_space, split_commas, trimmed, broker_list}

kept-full :
    (b : String) (rest : List String)
    → All (λ s. is_empty s ≡ false) rest
    → (t : Bool) → is_empty b ≡ t
    → All (λ s. is_empty s ≡ false) (if t then rest else b ∷ rest)
kept-full b rest h true e = h
kept-full b rest h false e = (e, h)

trimmed-full : (bs : List String) → All (λ s. is_empty s ≡ false) (trimmed bs)
unfolding trimmed
trimmed-full [] = tt
trimmed-full (b ∷ bs) =
    kept-full (trim_space b) (trimmed bs) (trimmed-full bs) (is_empty (trim_space b)) refl

-- Whatever the text is, no broker of the list that the services read from it is empty.
broker_list-full : (brokers : String) → All (λ s. is_empty s ≡ false) (broker_list brokers)
unfolding broker_list
broker_list-full brokers = trimmed-full (split_commas brokers)
