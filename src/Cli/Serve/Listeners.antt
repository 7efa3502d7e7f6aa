-- ===== src/Cli/Serve/Listeners.antt =====
-- What `sandbox serve` does to its listeners, and the HTTP one in detail.
use podman_sandbox_runner.Base.{
  ℤ, pos, true, false, ◌≡◌, refl, sym, ap, ◌∙◌, ◌⊎◌, inl, inr, ◌≢◌, List, [], ◌∷◌, ◌++◌, is_empty,
  Bool-cases, List-cases, if◌then◌else◌, arith,
}
use mathlib.Core.List.{append_assoc, append-nil}
use podman_sandbox_runner.Cli.Serve.{
  ServeFlags, Deed, stale_removed, socket_listened, socket_restricted, socket_served,
  socket_removed, listener_closed, http_served, http_shut, Net, Host, Course, is_refused,
  is_loopback_addr, shut_http, shut_unix, await_end, start_http,
}

-- The deeds of each listener, where the flags ask for it.
abbrev pub unix_up : ServeFlags → List Deed
unix_up f =
    if is_empty f.unix
    then []
    else socket_listened f.unix ∷ socket_restricted f.unix ∷ socket_served f.unix ∷ []

abbrev pub http_up : ServeFlags → List Deed
http_up f = if is_empty f.http then [] else http_served f.http ∷ []

abbrev pub http_down : ServeFlags → List Deed
http_down f = if is_empty f.http then [] else http_shut ∷ []

abbrev pub unix_down : ServeFlags → List Deed
unix_down f = if is_empty f.unix then [] else listener_closed ∷ socket_removed f.unix ∷ []

abbrev pub all_down : ServeFlags → List Deed
all_down f = http_down f ++ unix_down f

-- Whether HTTP may be served as the flags ask.
abbrev pub MayServe : Net → ServeFlags → Type 0
MayServe net f = (f.http ≡ []) ⊎ ((f.allow_remote ≡ true) ⊎ (is_loopback_addr net f.http ≡ true))

-- The exit code of a server with an open pool and what it did to it.
abbrev pub Serving : Net → ServeFlags → ℤ → List Deed → Type 0
Serving net f code ds =
    ((f.unix ≢ [])
      × (code ≡ pos 1)
      × ((ds ≡ []) ⊎ (ds ≡ socket_listened f.unix ∷ listener_closed ∷ [])))
    ⊎ (((f.http ≢ [])
          × (f.allow_remote ≡ false)
          × (is_loopback_addr net f.http ≡ false)
          × (code ≡ pos 2)
          × (ds ≡ unix_up f))
        ⊎ (MayServe net f × (code ≡ pos 0) × (ds ≡ unix_up f ++ (http_up f ++ all_down f))))

-- The same behind the removal of a stale socket, where one was there.
abbrev pub Served : Net → ServeFlags → ℤ → List Deed → Type 0
Served net f code ds =
    (stale rest : List Deed) × (ds ≡ stale ++ rest)
    × ((stale ≡ []) ⊎ ((f.unix ≢ []) × (stale ≡ stale_removed f.unix ∷ [])))
    × Serving net f code rest

-- What a part of the server adds to what was done.
abbrev pub Adds : {W : Type 0} → (ℤ → List Deed → Type 0) → Course W → ℤ × Course W → Type 0
Adds Q c q = (ds : List Deed) × (q.1.deeds ≡ c.deeds ++ ds) × Q q.0 ds

-- From the HTTP listener on.
abbrev pub HttpServing : Net → ServeFlags → ℤ → List Deed → Type 0
HttpServing net f code ds =
    ((f.http ≢ [])
      × (f.allow_remote ≡ false)
      × (is_loopback_addr net f.http ≡ false)
      × (code ≡ pos 2)
      × (ds ≡ []))
    ⊎ (MayServe net f × (code ≡ pos 0) × (ds ≡ http_up f ++ all_down f))

module _ {P W : Type 0} (net : Net) (host : Host P W) where
  shut_http-deeds :
      (f : ServeFlags) (c : Course W) → (shut_http net host f c).deeds ≡ c.deeds ++ http_down f
  unfolding shut_http
  shut_http-deeds f c = elim (Bool-cases (is_empty f.http)) [
    | inl h ↦ rw h (sym (append-nil c.deeds))
    | inr h ↦ rw h refl
  ]

  shut_unix-deeds :
      (f : ServeFlags) (c : Course W) → (shut_unix net host f c).deeds ≡ c.deeds ++ unix_down f
  unfolding shut_unix
  shut_unix-deeds f c = elim (Bool-cases (is_empty f.unix)) [
    | inl h ↦ rw h (sym (append-nil c.deeds))
    | inr h ↦ rw h (append_assoc c.deeds (listener_closed ∷ []) (socket_removed f.unix ∷ []))
  ]

  await_end-deeds :
      (f : ServeFlags) (c : Course W) → (await_end net host f c).1.deeds ≡ c.deeds ++ all_down f
  unfolding await_end
  await_end-deeds f c =
      shut_unix-deeds f _
      ∙ (ap (λ (l : List Deed). l ++ unix_down f)
            (shut_http-deeds f (record c { world = host.wait c.world }))
          ∙ append_assoc c.deeds (http_down f) (unix_down f))

  -- An address that is not refused may be served.
  may_serve : (f : ServeFlags) → is_refused net host f ≡ false → MayServe net f
  may_serve f r = elim (Bool-cases f.allow_remote) [
    | inl a ↦ inr (inl a)
    | inr a ↦ inr (inr (ground (arith, a, r)))
  ]

  pub start_http-Adds :
      (p : P) (f : ServeFlags) (c : Course W)
      → Adds (HttpServing net f) c (start_http net host p f c)
  unfolding start_http await_end
  start_http-Adds p f c = elim (List-cases f.http) [
    | inl h ↦
        rw (ap (λ l. is_empty l) h, start_http)
          (all_down f, await_end-deeds f c, inr (inl h, refl, rw (ap (λ l. is_empty l) h) refl))
    | inr (x, xs, h) ↦ elim (Bool-cases (is_refused net host f)) [
      | inl r ↦
          rw (ap (λ l. is_empty l) h, r, start_http)
            (
              [],
              sym (append-nil c.deeds),
              inl ((λ e. absurd (cc (h, e))), ground (arith, r), ground (arith, r), refl, refl),
            )
      | inr r ↦
          rw (ap (λ l. is_empty l) h, r, start_http)
            (
              http_served f.http ∷ all_down f,
              await_end-deeds f _ ∙ append_assoc c.deeds (http_served f.http ∷ []) (all_down f),
              inr (may_serve f r, refl, rw (ap (λ l. is_empty l) h) refl),
            )
    ]
  ]
