-- ===== src/IronicPythonAgent/Serve/Handled.antt =====
-- Which requests are handled.
use test_frerfhrebfd.Common.{true, false, List, [], ◌∷◌, ◌++◌, ◌≡◌, refl, ap, ◌⊎◌, inl, inr, arith}
use test_frerfhrebfd.Exec.{ok, Exec, raise, try_except}
use test_frerfhrebfd.Exec.Ensures.{
  Ensures, Ensures-pure, Ensures-raise, Ensures-call, Ensures-if, Ensures-try, Ensures-bind,
  Ensures-modify, Ensures-imp,
}
use test_frerfhrebfd.IronicPythonAgent.{Service, ServerRequest, in_world}
use test_frerfhrebfd.IronicPythonAgent.Serve.{
  Served, shut_down, waiting, server_failed, handle_request, serve_round, serve,
}

module _ {W : Type 0} where
  pub in_world-step :
      {A : Type 0} (m : Exec W A) (s : Service W)
      → Ensures
          (in_world m)
          (λ a t. (m s.world ≡ (ok a, t.world)) × (t ≡ record s { world = t.world }))
          s
  in_world-step m s = Ensures-call (λ a t h. (ground arith, ground arith))

  -- The requests have been handled one after the other, and none has ended the service.
  abbrev pub AllHandled : List (ServerRequest W) → W → W → Type 0
  AllHandled [] u v = u ≡ v
  AllHandled (request ∷ requests) u v =
      (w : W) × (request u ≡ (ok false, w)) × AllHandled requests w v

  -- The first request that ends the service is the last one that is handled.
  pub record EndedBy (requests : List (ServerRequest W)) (u v : W) : Type 0 where
    pub handled : List (ServerRequest W)
    pub last : ServerRequest W
    pub unheard : List (ServerRequest W)
    pub reached : W
    pub split : requests ≡ handled ++ last ∷ unheard
    pub before : AllHandled handled u reached
    pub ends : last reached ≡ (ok true, v)

  -- How a service that is open goes on: by all requests, or by those up to one that ends it.
  abbrev pub Handled : List (ServerRequest W) → Service W → Served → Service W → Type 0
  Handled requests s shut_down t =
      EndedBy requests s.world t.world × (t ≡ record s { serve_api = false; world = t.world })
  Handled requests s waiting t =
      AllHandled requests s.world t.world × (t ≡ record s { world = t.world })

  abbrev Answered : ServerRequest W → Service W → Service W → Type 0
  Answered request s t =
      ((request s.world ≡ (ok true, t.world))
        × (t ≡ record s { serve_api = false; world = t.world }))
      ⊎ ((request s.world ≡ (ok false, t.world)) × (t ≡ record s { world = t.world }))

  handle_request-Answered :
      (request : ServerRequest W) (s : Service W)
      → Ensures (handle_request request) (λ x. Answered request s) s
  unfolding handle_request
  handle_request-Answered request s =
      Ensures-bind (in_world (try_except request (λ e. raise (server_failed e)))) _ (λ ends u h.
        let (k, same) =
          (in_world-step (try_except request (λ e. raise (server_failed e))) s).ensured ends u h in
        let answer =
          (Ensures-try {P = λ b v. request s.world ≡ (ok b, v)} request
              (λ e. raise (server_failed e)) (Ensures-call (λ b v l. l))
              (λ e v l. Ensures-raise)).ensured
            ends u.world k in
        Ensures-if ends (λ b. Ensures-modify _ (inl (rw (← b) answer, ground arith)))
          (λ b. Ensures-pure (inr (rw (← b) answer, same))))

  after_answer :
      (request : ServerRequest W) (requests : List (ServerRequest W)) (s u t : Service W)
      (served : Served)
      → request s.world ≡ (ok false, u.world)
      → u ≡ record s { world = u.world }
      → Handled requests u served t
      → Handled (request ∷ requests) s served t
  after_answer request requests s u t shut_down h same (e, k) = (
    record {
      handled = request ∷ e.handled;
      last = e.last;
      unheard = e.unheard;
      reached = e.reached;
      split = ap (λ l. request ∷ l) e.split;
      before = (u.world, h, e.before);
      ends = e.ends;
    },
    ground arith,
  )
  after_answer request requests s u t waiting h same (a, k) = ((u.world, h, a), ground arith)

  closed :
      (requests : List (ServerRequest W)) (s t : Service W) (served : Served)
      → s.serve_api ≡ false
      → serve requests s ≡ (ok served, t)
      → (served ≡ shut_down) × (s ≡ t)
  unfolding serve
  closed [] s t served b h = (ground arith, ground arith)
  closed (request ∷ requests) s t served b h = (ground arith, ground arith)

  ended :
      (request : ServerRequest W) (requests : List (ServerRequest W)) (s u : Service W)
      → request s.world ≡ (ok true, u.world)
      → u ≡ record s { serve_api = false; world = u.world }
      → Ensures (serve requests) (Handled (request ∷ requests) s) u
  ended request requests s u h same = Ensures-call (λ served t k.
      let (is_down, kept) = closed requests u t served (ground arith) k in
      rw (is_down, ← kept)
        (
          record {
            handled = [];
            last = request;
            unheard = requests;
            reached = s.world;
            split = refl;
            before = refl;
            ends = h;
          },
          same,
        ))

  serve_round-Handled :
      (request : ServerRequest W) (requests : List (ServerRequest W)) (s : Service W)
      → s.serve_api ≡ true
      → ((u : Service W) → u.serve_api ≡ true → Ensures (serve requests) (Handled requests u) u)
      → Ensures (serve_round request (serve requests)) (Handled (request ∷ requests) s) s
  unfolding serve_round
  serve_round-Handled request requests s b more = Ensures-bind (handle_request request) _ (λ x u h.
      elim ((handle_request-Answered request s).ensured x u h) [
        | inl (k, same) ↦ ended request requests s u k same
        | inr (k, same) ↦
            Ensures-imp (more u (ground arith))
              (λ served t a. after_answer request requests s u t served k same a)
      ])

  pub serve-Handled :
      (requests : List (ServerRequest W)) (s : Service W)
      → s.serve_api ≡ true
      → Ensures (serve requests) (Handled requests s) s
  unfolding serve
  serve-Handled [] s b = Ensures-call (λ served t h.
      let is_waiting : served ≡ waiting = ground arith in
      let same : s ≡ t = ground arith in rw (is_waiting, ← same) (refl, refl))
  serve-Handled (request ∷ requests) s b = Ensures-call (λ served t h.
      (serve_round-Handled request requests s b (serve-Handled requests)).ensured served t
        (ground arith))
