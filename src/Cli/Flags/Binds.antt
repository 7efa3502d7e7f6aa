-- ===== src/Cli/Flags/Binds.antt =====
-- What the binds of `buildOpts` look like: every mount is read-only.
use podman_sandbox_runner.Base.{
  ℕ, suc, Bool, true, ◌≡◌, refl, ap, inl, inr, List, [], ◌∷◌, ◌++◌, Text, bytes, cut, has_prefix,
  cut_prefix, count, arith, Bool-cases, Option-cases,
}
use mathlib.Core.Path.{subst}
use podman_sandbox_runner.Sandbox.{ok, Fallible-cases, Opts}
use podman_sandbox_runner.Cli.Flags.{
  SandboxFlags, split_n, bind_of, binds_of, bad_entry, build_opts,
}

-- An absolute path on each side, no colon in either, and the mode "ro".
pub record IsReadOnly (b : Text) : Type 0 where
  pub host : Text
  pub container : Text
  pub shape : b ≡ b'/' ∷ host ++ bytes ":" ++ (b'/' ∷ container) ++ bytes ":ro"
  pub host_colons : count b':' host ≡ 0
  pub container_colons : count b':' container ≡ 0

abbrev pub All : List Text → Type 0
All [] = Unit
All (b ∷ bs) = IsReadOnly b × All bs

count-cut : (s : Text) (d : ℕ) → count d (cut s d).0 ≡ 0
unfolding cut
count-cut [] d = refl
count-cut (c ∷ s) d = ground (arith, count-cut s d)

-- The parts of a split hold no separator, but for the last of as many as were asked for.
split_n-clean :
    (s : Text) (d n : ℕ) (a b : Text) (rest : List Text)
    → split_n s d (suc (suc (suc n))) ≡ a ∷ b ∷ rest
    → (count d a ≡ 0) × (count d b ≡ 0)
unfolding split_n
split_n-clean s d n a b rest e = elim (Option-cases (cut s d).1) [
  | inl q ↦ absurd (ground (arith, (rw (q, split_n) at e)))
  | inr (r, q) ↦ elim (Option-cases (cut r d).1) [
    | inl q' ↦ ground (arith, (rw (q, split_n, q') at e), count-cut s d, count-cut r d)
    | inr (r', q') ↦ ground (arith, (rw (q, split_n, q') at e), count-cut s d, count-cut r d)
  ]
]

slash : (s : Text) → has_prefix s (bytes "/") ≡ true → (r : Text) × (s ≡ b'/' ∷ r)
unfolding has_prefix cut_prefix
slash [] h = cc
slash (c ∷ s) h = (s, ground arith)

bind_of-IsReadOnly :
    (v : Text) (parts : List Text) {b : Text}
    → ((a c : Text) (rest : List Text)
        → parts ≡ a ∷ c ∷ rest
        → (count b':' a ≡ 0) × (count b':' c ≡ 0))
    → bind_of v parts ≡ ok b
    → IsReadOnly b
unfolding bind_of
bind_of-IsReadOnly v [] clean e = cc
bind_of-IsReadOnly v (host ∷ []) clean e = cc
bind_of-IsReadOnly v (host ∷ container ∷ rest) {b} clean e =
    elim (Bool-cases (has_prefix host (bytes "/"))) [
      | inr q ↦ absurd (ground (arith, (rw (q, bind_of) at e)))
      | inl q ↦ elim (Bool-cases (has_prefix container (bytes "/"))) [
        | inr q' ↦ absurd (ground (arith, (rw (q, q', bind_of) at e)))
        | inl q' ↦
            let (h, eh) = slash host q in
            let (c, ec) = slash container q' in
            let (ch, cc') = clean host container rest refl in
            record {
              host = h;
              container = c;
              shape = cc ((rw (q, q', bind_of) at e), eh, ec);
              host_colons = ground (arith, ch, ap (count b':') eh);
              container_colons = ground (arith, cc', ap (count b':') ec);
            }
      ]
    ]

binds_of-IsReadOnly : (vs bs : List Text) → binds_of vs ≡ ok bs → All bs
unfolding binds_of
binds_of-IsReadOnly [] [] e = tt
binds_of-IsReadOnly [] (b ∷ bs) e = absurd cc
binds_of-IsReadOnly (v ∷ vs) bs e = elim (Fallible-cases (bind_of v (split_n v b':' 3))) [
  | inr (x, q) ↦ absurd (ground (arith, (rw (binds_of, q) at e)))
  | inl (b, q) ↦ elim (Fallible-cases (binds_of vs)) [
    | inr (x, q') ↦ absurd (ground (arith, (rw (binds_of, q, q') at e)))
    | inl (bs', q') ↦
        let same : b ∷ bs' ≡ bs = cc (rw (binds_of, q, q') at e) in
        subst All same (
          bind_of-IsReadOnly v (split_n v b':' 3) (split_n-clean v b':' 0) q,
          binds_of-IsReadOnly vs bs' q',
        )
  ]
]

-- Options that `buildOpts` builds mount every bind of the command line read-only: the entry is an
-- absolute path without a colon, an absolute path without a colon, and "ro". The command, the
-- environment and the choice of stdin are those it was given.
pub build_opts-IsReadOnly :
    (sf : SandboxFlags) (cmd : List Text) (stdin : Bool) (o : Opts)
    → build_opts sf cmd stdin ≡ ok o
    → All o.binds × (o.cmd ≡ cmd) × (o.env ≡ sf.envs) × (o.with_stdin ≡ stdin)
unfolding build_opts
build_opts-IsReadOnly sf cmd stdin o e = elim (Fallible-cases (binds_of sf.vols)) [
  | inr (x, q) ↦ absurd (ground (arith, (rw (build_opts, q) at e)))
  | inl (bs, q) ↦ elim (Option-cases (bad_entry sf.envs)) [
    | inr (x, q') ↦ absurd (ground (arith, (rw (build_opts, q, q') at e)))
    | inl q' ↦
        let same = (rw (build_opts, q, q') at e) in
        (subst All (cc same) (binds_of-IsReadOnly sf.vols bs q), cc same, cc same, cc same)
  ]
]
