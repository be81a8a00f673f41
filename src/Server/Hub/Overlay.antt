-- ===== src/Server/Hub/Overlay.antt =====
-- Whose sources a switch of the profile leaves alone.
use loggi.Prelude.{
  ℕ, suc, ◌≤◌, ◌≡◌, ◌≢◌, refl, subst, inl, inr, ◌⊎◌, false, ◌&&◌, Option, some, List, [], ◌∷◌,
  if◌then◌else◌, lookup, lookup-insert, lookup-delete, nat_eq, is_empty, arith, Bool-cases,
  Option-cases, if_cases, Pairs,
}
use loggi.Text.{Bytes, str_eq, str_eq_iff, bytes_eq}
use loggi.Server.Hub.{
  SourceRec, SourceRef, Sources, Hub, Options, kind_file, kind_docker, is_running, is_target,
  find_open_source, find_open_source_with_owner, broadcast_source_event, broadcast_source_state,
  load_pref, new_rec, remove_source, with_columns, attach, add_file_source, add_docker_source,
  start_source_ref,
}
use loggi.Server.Hub.Profiles.{
  refs_minus, owner_of, ident_of, remove_ref, remove_refs, add_ref, add_refs, switch_to,
  activate_profile,
}
use loggi.Server.Hub.Registry.{IsHub, All-lookup}
use loggi.Server.Hub.Steps.{remove_ref-IsHub, remove_refs-IsHub, add_ref-IsHub}

-- The source that is found has that owner.
owner_of_found :
    (kind ident owner : Bytes) (id : ℕ) (m : Sources)
    → Pairs (λ e f. e.0 ≢ f.0) m
    → find_open_source_with_owner kind ident owner m ≡ some id
    → (t : SourceRec) × (lookup id m ≡ some t) × (t.owner ≡ owner)
unfolding find_open_source_with_owner
owner_of_found kind ident owner id [] d h = absurd (cc)
owner_of_found kind ident owner id ((j, q) ∷ m) (p, d) h =
    elim (Bool-cases (is_running q.state && str_eq q.owner owner && is_target kind ident q)) [
      | inl b ↦ (q, ground (arith, b, h), (str_eq_iff q.owner owner).0 (ground (arith, b)))
      | inr b ↦
          let (t, l, o) = owner_of_found kind ident owner id m d (ground (arith, b)) in
          let ne : j ≢ id = All-lookup (λ e. j ≢ e.0) id t m l p in (t, ground (arith, l, ne), o)
    ]

remove_ref-kept :
    (owner : Bytes) (r : SourceRef) (h : Hub) (id : ℕ) (s : SourceRec)
    → IsHub h
    → s.owner ≢ owner
    → lookup id h.srcs ≡ some s
    → lookup id (remove_ref owner r h).srcs ≡ some s
unfolding remove_ref remove_source broadcast_source_event
remove_ref-kept owner r h id s v ne l =
    elim (Option-cases (find_open_source_with_owner r.kind (ident_of r) owner h.srcs)) [
      | inl e ↦ rw (e, remove_ref) l
      | inr (j, e) ↦
          let (t, found, o) = owner_of_found r.kind (ident_of r) owner j h.srcs v.ids e in
          let apart : j ≢ id = λ q. ne (ground (arith, q, l, found, o)) in
          rw (e, found, remove_ref) (ground (arith, l, lookup-delete j id h.srcs))
    ]

remove_refs-kept :
    (owner : Bytes) (refs : List SourceRef) (h : Hub) (id : ℕ) (s : SourceRec)
    → IsHub h
    → s.owner ≢ owner
    → lookup id h.srcs ≡ some s
    → lookup id (remove_refs owner refs h).srcs ≡ some s
unfolding remove_refs
remove_refs-kept owner [] h id s v ne l = l
remove_refs-kept owner (r ∷ refs) h id s v ne l =
    remove_refs-kept owner refs (remove_ref owner r h) id s (remove_ref-IsHub owner r h v) ne
      (remove_ref-kept owner r h id s v ne l)

-- The references that a profile of this name has, none for the empty name.
abbrev pub declared : Bytes → Hub → Option (List SourceRef)
declared name h = if is_empty name then some [] else lookup name h.profiles

module _ (opts : Options) (now : ℕ) where
  attach-kept :
      (kind name owner : Bytes) (h : Hub) (id : ℕ) (s : SourceRec)
      → IsHub h
      → lookup id h.srcs ≡ some s
      → lookup id
          (attach opts now
            (suc h.generated)
            kind
            name
            owner
            (record h { generated = suc h.generated })).srcs
        ≡ some s
  unfolding attach
  attach-kept kind name owner h id s v l =
      let below : id ≤ h.generated = All-lookup (λ e. e.0 ≤ h.generated) id s h.srcs l v.fresh in
      let r = with_columns opts now (load_pref kind name h.prefs) (new_rec kind name owner) in
      ground (arith, below, l, lookup-insert (suc h.generated) id r h.srcs)

  start_source_ref-kept :
      (r : SourceRef) (owner : Bytes) (h : Hub) (id : ℕ) (s : SourceRec)
      → IsHub h
      → lookup id h.srcs ≡ some s
      → lookup id ((start_source_ref opts now r owner h).0).srcs ≡ some s
  unfolding start_source_ref add_file_source add_docker_source
  start_source_ref-kept r owner h id s v l =
      let Kept : Hub × Option ℕ → Type 0 = λ p. lookup id (p.0).srcs ≡ some s in
      if_cases Kept (str_eq r.kind kind_file) _ _
        (λ _.
          let path = if is_empty r.path then r.name else r.path in
          if_cases Kept (is_empty path) _ _ (λ _. l)
            λ _. elim (Option-cases (find_open_source kind_file path h.srcs)) [
              | inl e ↦ rw (e, add_file_source) (attach-kept kind_file path owner h id s v l)
              | inr (j, e) ↦ rw (e, add_file_source) l
            ])
        λ _.
          if_cases Kept (str_eq r.kind kind_docker) _ _
            (λ _.
              if_cases Kept (is_empty r.name) _ _ (λ _. l)
                λ _. elim (Option-cases (find_open_source kind_docker r.name h.srcs)) [
                  | inl e ↦ elim (Bool-cases (opts.docker r.name)) [
                    | inl d ↦
                        rw (e, d, add_docker_source)
                          (attach-kept kind_docker r.name owner h id s v l)
                    | inr d ↦ rw (e, d, add_docker_source) l
                  ]
                  | inr (j, e) ↦ rw (e, add_docker_source) l
                ])
            λ _. l

  add_ref-kept :
      (owner : Bytes) (r : SourceRef) (h : Hub) (id : ℕ) (s : SourceRec)
      → IsHub h
      → lookup id h.srcs ≡ some s
      → lookup id (add_ref opts now owner r h).srcs ≡ some s
  unfolding add_ref broadcast_source_state broadcast_source_event
  add_ref-kept owner r h id s v l =
      let kept = start_source_ref-kept r owner h id s v l in
      elim (Option-cases ((start_source_ref opts now r owner h).1)) [
        | inl e ↦ rw (e, add_ref) kept
        | inr (j, e) ↦ rw (e, add_ref) kept
      ]

  add_refs-kept :
      (owner : Bytes) (refs : List SourceRef) (h : Hub) (id : ℕ) (s : SourceRec)
      → IsHub h
      → lookup id h.srcs ≡ some s
      → lookup id (add_refs opts now owner refs h).srcs ≡ some s
  unfolding add_refs
  add_refs-kept owner [] h id s v l = l
  add_refs-kept owner (r ∷ refs) h id s v l =
      add_refs-kept owner refs (add_ref opts now owner r h) id s
        (add_ref-IsHub opts now owner r h v) (add_ref-kept owner r h id s v l)

  -- Where nothing is removed, or the removed have another owner.
  pub switch_to-kept :
      (name : Bytes) (refs : List SourceRef) (h : Hub) (id : ℕ) (s : SourceRec)
      → IsHub h
      → (refs_minus h.active_profile_sources refs ≡ []) ⊎ (s.owner ≢ owner_of h.active_profile)
      → lookup id h.srcs ≡ some s
      → lookup id (switch_to opts now name refs h).srcs ≡ some s
  unfolding switch_to remove_refs
  switch_to-kept name refs h id s v (inl none_gone) l =
      let come = refs_minus refs h.active_profile_sources in
      rw none_gone (add_refs-kept (owner_of name) come h id s v l)
  switch_to-kept name refs h id s v (inr ne) l =
      let come = refs_minus refs h.active_profile_sources in
      let gone = refs_minus h.active_profile_sources refs in
      let removed = remove_refs (owner_of h.active_profile) gone h in
      add_refs-kept (owner_of name) come removed id s
        (remove_refs-IsHub (owner_of h.active_profile) gone h v)
        (remove_refs-kept (owner_of h.active_profile) gone h id s v ne l)

  pub activate_profile-switch_to :
      (name : Bytes) (h k : Hub)
      → activate_profile opts now name h ≡ some k
      → (refs : List SourceRef) × (declared name h ≡ some refs)
        × (switch_to opts now name refs h ≡ k)
  unfolding activate_profile
  activate_profile-switch_to name h k e = elim (Bool-cases (is_empty name)) [
    | inl p ↦ ([], ground (arith, p), ground (arith, p))
    | inr p ↦ elim (Option-cases (lookup name h.profiles)) [
      | inl l ↦ absurd (ground (arith, p, l))
      | inr (refs, l) ↦ (refs, ground (arith, p, l), ground (arith, p, l))
    ]
  ]

  -- A switch of the profile leaves every source that no profile owns as it was, whether it is running or
  -- not, where the table is sound and no sources are declared while no profile is active.
  pub activate_profile-spares :
      (name : Bytes) (h k : Hub) (id : ℕ) (s : SourceRec)
      → IsHub h
      → (h.active_profile_sources ≡ []) ⊎ (is_empty h.active_profile ≡ false)
      → activate_profile opts now name h ≡ some k
      → lookup id h.srcs ≡ some s
      → s.owner ≡ []
      → lookup id k.srcs ≡ some s
  activate_profile-spares name h k id s v a e l o =
      let (refs, _, made) = activate_profile-switch_to name h k e in
      subst (λ (x : Hub). lookup id x.srcs ≡ some s) made
        (switch_to-kept name refs h id s v (spared refs a) l)
    where
      spared :
          (refs : List SourceRef)
          → (h.active_profile_sources ≡ []) ⊎ (is_empty h.active_profile ≡ false)
          → (refs_minus h.active_profile_sources refs ≡ []) ⊎ (s.owner ≢ owner_of h.active_profile)
      spared refs (inl n) = inl (unfold refs_minus in rw n refl)
      spared refs (inr p) = inr (λ q. ground (arith, o, p, q))
