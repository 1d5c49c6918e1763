-- ===== src/Producer/Loop/Controls.antt =====
-- What a request to /control changes for runGenerator of pv-producer/cmd/app/main.go.
use wallet_service.Base.{
  String, ◌≡◌, ◌∙◌, refl, ap, sym, ◌⊎◌, inl, inr, Bool, true, false, ◌||◌, ◌=ₛ◌, arith,
  if◌then◌else◌,
}
use wallet_service.Base.Result.{Result, ok, err}
use wallet_service.Base.Text.{is_empty}
use wallet_service.Producer.Generator.{Generator}
use wallet_service.Producer.Broker.{State, Outcome, returned, panicked}
use wallet_service.Producer.Control.{
  ControlRequest, Server, accepted, http_error, replied, control, sets_producer, update_generator,
  update_producer, handle_control,
}
use wallet_service.Producer.Loop.{App, AppTurn, ticked, controlled, serve_control}

-- A request that does not take the generator out of the burst mode.
abbrev pub stays : AppTurn → Bool
stays (ticked t) = true
stays (controlled method (err _)) = true
stays (controlled method (ok req)) = is_empty req.mode || req.mode =ₛ "burst"

replied-generator :
    (req : ControlRequest) (s : Server) (r : Outcome × State)
    → (replied req s r).1.generator ≡ s.generator
replied-generator req s (panicked, p) = refl
replied-generator req s (returned, p) = refl

control-generator :
    (req : ControlRequest) (s : Server)
    → (control (ok req) s).1.generator ≡ update_generator req s.generator
unfolding update_producer
control-generator req s = set (sets_producer req)
  where
    s1 : Server
    s1 = record s { generator = update_generator req s.generator }

    set :
        (b : Bool)
        → (if b then update_producer req s1 else (accepted req, s1)).1.generator
          ≡ update_generator req s.generator
    set true = replied-generator req s1 _
    set false = refl

-- A request leaves the generator, or gives it a mode and a rate.
handle_control-generator :
    (method : String) (body : Result String ControlRequest) (s : Server)
    → ((handle_control method body s).1.generator ≡ s.generator)
      ⊎ ((req : ControlRequest) × (body ≡ ok req)
          × ((handle_control method body s).1.generator ≡ update_generator req s.generator))
unfolding handle_control
handle_control-generator method body s = routed (method =ₛ "POST") body
  where
    routed :
        (post : Bool) (b : Result String ControlRequest)
        → ((if post then control b s else (http_error 405 "Method not allowed", s)).1.generator
            ≡ s.generator)
          ⊎ ((req : ControlRequest) × (b ≡ ok req)
              × ((if post
                    then control b s
                    else (http_error 405 "Method not allowed", s)).1.generator
                  ≡ update_generator req s.generator))
    routed false b = inl refl
    routed true (err _) = inl refl
    routed true (ok req) = inr (req, refl, control-generator req s)

update-counter :
    (req : ControlRequest) (g : Generator)
    → (update_generator req g).event_counter ≡ g.event_counter
unfolding update_generator
update-counter req g = ground arith

update-mode :
    (req : ControlRequest) (g : Generator)
    → (is_empty req.mode || req.mode =ₛ "burst") ≡ true
    → (g.mode =ₛ "burst") ≡ true
    → ((update_generator req g).mode =ₛ "burst") ≡ true
unfolding update_generator
update-mode req g stay h = ground arith

module _ (method : String) (body : Result String ControlRequest) (a : App) where
  abbrev server : Server
  server = record { cfg = a.cfg; generator = a.generator; producer = a.producer }

  pub serve_control-counter :
      (serve_control method body a).generator.event_counter ≡ a.generator.event_counter
  unfolding serve_control
  serve_control-counter = elim (handle_control-generator method body server) [
    | inl same ↦ ap (λ (g : Generator). g.event_counter) same
    | inr (req, is_req, set) ↦
        ap (λ (g : Generator). g.event_counter) set ∙ update-counter req a.generator
  ]

  pub serve_control-mode :
      stays (controlled method body) ≡ true
      → (a.generator.mode =ₛ "burst") ≡ true
      → ((serve_control method body a).generator.mode =ₛ "burst") ≡ true
  unfolding serve_control
  serve_control-mode stay h = elim (handle_control-generator method body server) [
    | inl same ↦ ap (λ (g : Generator). g.mode =ₛ "burst") same ∙ h
    | inr (req, is_req, set) ↦
        ap (λ (g : Generator). g.mode =ₛ "burst") set
        ∙ update-mode req a.generator
            (ap (λ (b : Result String ControlRequest). stays (controlled method b)) (sym is_req)
              ∙ stay)
            h
  ]
