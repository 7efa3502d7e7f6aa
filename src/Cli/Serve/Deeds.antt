-- ===== src/Cli/Serve/Deeds.antt =====
-- What `sandbox serve` does, in which order, and its exit code.
use podman_sandbox_runner.Base.{
  if◌then◌else◌, true, false, ℤ, pos, false, ◌&&◌, ◌≡◌, refl, sym, ap, ◌∙◌, ◌⊎◌, inl, inr, ◌≢◌,
  Option, none, some, List, [], ◌∷◌, ◌++◌, is_empty, Bool-cases, List-cases,
}
use mathlib.Core.Path.{subst}
use mathlib.Core.List.{append_assoc, append-nil}
use podman_sandbox_runner.Sandbox.{Error, Fallible, ok, err, Fallible-cases, Opts}
use podman_sandbox_runner.Cli.Flags.{build_opts}
use podman_sandbox_runner.Cli.Serve.{
  ServeFlags, Deed, stale_removed, pool_opened, pool_closed, socket_listened, socket_restricted,
  socket_served, listener_closed, Net, Host, Course, does, cleared, start_http, restricted,
  listened, start_unix, closing_pool, pooled, run_serve,
}
use podman_sandbox_runner.Cli.Serve.Listeners.{
  Served, unix_up, http_up, all_down, Serving, Adds, HttpServing, start_http-Adds,
}

module _ {P W : Type 0} (net : Net) (host : Host P W) where
  -- Without a unix socket only HTTP is left.
  no_unix : (f : ServeFlags) (ds : List Deed) → f.unix ≡ [] → ds ≡ unix_up f ++ ds
  no_unix f ds u = rw (ap (λ l. is_empty l) u) refl

  http_only :
      (f : ServeFlags) (code : ℤ) (ds : List Deed)
      → f.unix ≡ []
      → HttpServing net f code ds
      → Serving net f code ds
  http_only f code ds u (inl (h, a, l, two, q)) =
      inr (inl (h, a, l, two, q ∙ (no_unix f [] u ∙ append-nil (unix_up f))))
  http_only f code ds u (inr (m, zero, q)) =
      inr (inr (m, zero, q ∙ no_unix f (http_up f ++ all_down f) u))

  -- With one, what HTTP adds comes after it.
  unix_first :
      (f : ServeFlags) (code : ℤ) (ds : List Deed)
      → HttpServing net f code ds
      → Serving net f code (unix_up f ++ ds)
  unix_first f code ds (inl (h, a, l, two, q)) =
      inr (inl (h, a, l, two, ap (λ (k : List Deed). unix_up f ++ k) q ∙ append-nil (unix_up f)))
  unix_first f code ds (inr (m, zero, q)) =
      inr (inr (m, zero, ap (λ (k : List Deed). unix_up f ++ k) q))

  three :
      (f : ServeFlags)
      → f.unix ≢ []
      → unix_up f ≡ socket_listened f.unix ∷ socket_restricted f.unix ∷ socket_served f.unix ∷ []
  three f u = elim (List-cases f.unix) [
    | inl none_there ↦ absurd (u none_there)
    | inr (x, xs, e) ↦ rw (ap (λ l. is_empty l) e) refl
  ]

  -- What follows the socket's creation, and with it.
  abbrev Listening : ServeFlags → ℤ → List Deed → Type 0
  Listening f code ds = Serving net f code (socket_listened f.unix ∷ ds)

  -- From the socket's creation on.
  restricted-Adds :
      (p : P) (f : ServeFlags) (made : Option Error × W) (c : Course W)
      → f.unix ≢ []
      → Adds (Listening f) c (restricted net host p f made c)
  restricted-Adds p f (some e, w) c u = (listener_closed ∷ [], refl, inl (u, refl, inr refl))
  restricted-Adds p f (none, w) c u =
      then_http (start_http net host p f shown) (start_http-Adds net host p f shown)
    where
      shown : Course W
      shown =
          does (socket_served f.unix) (host.serve_unix p w) (does (socket_restricted f.unix) w c)

      then_http : (q : ℤ × Course W) → Adds (HttpServing net f) shown q → Adds (Listening f) c q
      then_http q (ds, e, h) = (
        socket_restricted f.unix ∷ socket_served f.unix ∷ ds,
        e
            ∙ (append_assoc (c.deeds ++ socket_restricted f.unix ∷ []) (socket_served f.unix ∷ [])
                  ds
                ∙ append_assoc c.deeds (socket_restricted f.unix ∷ []) (socket_served f.unix ∷ ds)),
        subst (λ (l : List Deed). Serving net f q.0 (l ++ ds)) (three f u) (unix_first f q.0 ds h),
      )

  listened-Adds :
      (p : P) (f : ServeFlags) (made : Option Error × W) (c : Course W)
      → f.unix ≢ []
      → Adds (Serving net f) c (listened net host p f made c)
  listened-Adds p f (some e, w) c u = ([], sym (append-nil c.deeds), inl (u, refl, inl refl))
  listened-Adds p f (none, w) c u =
      after (restricted net host p f (host.chmod f.unix w) (does (socket_listened f.unix) w c))
        (restricted-Adds p f (host.chmod f.unix w) (does (socket_listened f.unix) w c) u)
    where
      after :
          (q : ℤ × Course W)
          → Adds (Listening f) (does (socket_listened f.unix) w c) q
          → Adds (Serving net f) c q
      after q (ds, e, h) = (
        socket_listened f.unix ∷ ds,
        e ∙ append_assoc c.deeds (socket_listened f.unix ∷ []) ds,
        h,
      )

  only_http :
      (p : P) (f : ServeFlags) (c : Course W)
      → f.unix ≡ []
      → start_unix net host p f c ≡ start_http net host p f c
  unfolding start_unix
  only_http p f c u = rw (ap (λ l. is_empty l) u, start_unix) refl

  with_unix :
      (p : P) (f : ServeFlags) (c : Course W)
      → is_empty f.unix ≡ false
      → start_unix net host p f c
        ≡ listened net host p f
            (host.listen_unix f.unix (cleared net host f c).world)
            (cleared net host f c)
  unfolding start_unix
  with_unix p f c u = rw (u, start_unix) refl

  -- What the socket adds, with the removal of a stale one.
  cleared-Adds :
      (f : ServeFlags) (c : Course W) (q : ℤ × Course W)
      → f.unix ≢ []
      → Adds (Serving net f) (cleared net host f c) q
      → Adds (Served net f) c q
  cleared-Adds f c q u =
      elim (host.exists_path f.unix c.world)
        as (λ b.
          Adds (Serving net f)
            (if b then does (stale_removed f.unix) (host.remove f.unix c.world) c else c) q
          → Adds (Served net f) c q) [
            | true ↦ λ h. (
              stale_removed f.unix ∷ h.0,
              h.1 ∙ append_assoc c.deeds (stale_removed f.unix ∷ []) h.0,
              (stale_removed f.unix ∷ [], h.0, refl, inr (u, refl), h.2),
            )
            | false ↦ λ h. (h.0, h.1, ([], h.0, refl, inl refl, h.2))
          ]

  start_unix-Adds :
      (p : P) (f : ServeFlags) (c : Course W) → Adds (Served net f) c (start_unix net host p f c)
  start_unix-Adds p f c = elim (List-cases f.unix) [
    | inl u ↦
        subst (Adds (Served net f) c) (sym (only_http p f c u))
          (plain u (start_http-Adds net host p f c))
    | inr (x, xs, u) ↦ subst (Adds (Served net f) c) (sym (with_unix p f c (rw (u) refl))) (
        cleared-Adds f c
          (listened net host p f (host.listen_unix f.unix (cleared net host f c).world)
            (cleared net host f c))
          (λ e. absurd (cc (u, e)))
          (listened-Adds p f _ (cleared net host f c) (λ e. absurd (cc (u, e)))))
  ]
    where
      plain :
          f.unix ≡ []
          → Adds (HttpServing net f) c (start_http net host p f c)
          → Adds (Served net f) c (start_http net host p f c)
      plain u (ds, e, h) = (ds, e, ([], ds, refl, inl refl, http_only f _ ds u h))

  abbrev Ran : ServeFlags → ℤ × Course W → Type 0
  Ran f q =
      ((q.1.deeds ≡ []) × ((q.0 ≡ pos 1) ⊎ (q.0 ≡ pos 2)))
      ⊎ ((mid : List Deed) × (q.1.deeds ≡ pool_opened ∷ mid ++ (pool_closed ∷ []))
          × Served net f q.0 mid)

  pooled-Ran : (f : ServeFlags) (made : Fallible P × W) → Ran f (pooled net host f made)
  pooled-Ran f (err e, w) = inl (refl, inl refl)
  pooled-Ran f (ok p, w) = closed (start_unix net host p f opened) (start_unix-Adds p f opened)
    where
      opened : Course W
      opened = record { world = w; deeds = pool_opened ∷ [] }

      closed : (q : ℤ × Course W) → Adds (Served net f) opened q → Ran f (closing_pool net host p q)
      closed (code, c) (ds, e, h) = inr (ds, ap (λ (l : List Deed). l ++ pool_closed ∷ []) e, h)

  -- A server either does nothing, with exit code 1 or 2, or opens its pool first and closes it last.
  -- What it does between the two, and its exit code, is one of these, which the removal of a stale
  -- socket may precede where a unix socket is asked for. With a unix socket asked for:
  -- nothing, or a listener on the socket and its end, with 1. With an HTTP address that is not
  -- loopback and without -http-allow-remote: the start of the unix socket, where one is asked for,
  -- without its end, and with 2. With no HTTP address, a loopback one or -http-allow-remote: the start
  -- of each listener asked for, the socket restricted before it is served, and then the end of each,
  -- HTTP first, with 0.
  pub run_serve_deeds :
      (f : ServeFlags) (w : W)
      → (((run_serve net host f w).1.deeds ≡ [])
          × (((run_serve net host f w).0 ≡ pos 1) ⊎ ((run_serve net host f w).0 ≡ pos 2)))
        ⊎ ((mid : List Deed) × ((run_serve net host f w).1.deeds
              ≡ pool_opened ∷ mid ++ (pool_closed ∷ []))
            × Served net f (run_serve net host f w).0 mid)
  unfolding run_serve
  run_serve_deeds f w = elim (Bool-cases (is_empty f.unix && is_empty f.http)) [
    | inl b ↦ rw (b, run_serve) (inl (refl, inr refl))
    | inr b ↦ elim (Fallible-cases (build_opts f.sandbox [] false)) [
      | inl (o, s) ↦ subst (Ran f) (sym (with_opts b o s)) (pooled-Ran f _)
      | inr (e, s) ↦ rw (b, s, run_serve) (inl (refl, inr refl))
    ]
  ]
    where
      with_opts :
          is_empty f.unix && is_empty f.http ≡ false
          → (o : Opts) → build_opts f.sandbox [] false ≡ ok o
          → run_serve net host f w
            ≡ pooled net host f
                (host.new_pool o (record { min = f.min; max = f.max; idle_timeout = f.idle }) w)
      with_opts b o s = rw (b, s, run_serve) refl
