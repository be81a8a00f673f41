-- ===== src/Server/Hub/Switches.antt =====
-- Switches of the profile after one another.
use loggi.Prelude.{
  ℕ, ◌≡◌, ◌≢◌, refl, sym, ◌∙◌, ap, subst, inl, inr, true, false, Option, some, List, [], ◌∷◌,
  if◌then◌else◌, lookup, nat_eq, is_empty, arith, Bool-cases, Option-cases, if_cases,
}
use loggi.Text.{Bytes, str_eq, str_eq_iff, bytes_eq}
use loggi.Server.Hub.{
  SourceRec, SourceRef, Hub, Options, kind_file, kind_docker, find_open_source,
  find_open_source_with_owner, broadcast_source_event, broadcast_source_state, remove_source,
  attach, add_file_source, add_docker_source, start_source_ref,
}
use loggi.Server.Hub.Profiles.{
  listed, refs_minus, owner_of, ident_of, remove_ref, remove_refs, add_ref, add_refs, switch_to,
  activate_profile,
}
use loggi.Server.Hub.Registry.{IsHub}
use loggi.Server.Hub.Steps.{switch_to-IsHub}
use loggi.Server.Hub.Overlay.{switch_to-kept, activate_profile-switch_to, declared}

refs_minus-listed :
    (a b : List SourceRef)
    → ((r : SourceRef) → listed r a ≡ true → listed r b ≡ true)
    → refs_minus a b ≡ []
unfolding refs_minus listed
refs_minus-listed [] b f = refl
refs_minus-listed (r ∷ a) b f =
    let here : listed r b ≡ true =
      f r (ground (arith, (str_eq_iff r.kind r.kind).1 refl, (str_eq_iff r.name r.name).1 refl)) in
    rw here (refs_minus-listed a b (λ q h. f q (ground (arith, h))))

refs_minus_self : (a : List SourceRef) → refs_minus a a ≡ []
refs_minus_self a = refs_minus-listed a a (λ r h. h)

remove_ref-profiles :
    (owner : Bytes) (r : SourceRef) (h : Hub) → (remove_ref owner r h).profiles ≡ h.profiles
unfolding remove_ref remove_source broadcast_source_event
remove_ref-profiles owner r h =
    elim (Option-cases (find_open_source_with_owner r.kind (ident_of r) owner h.srcs)) [
      | inl e ↦ rw (e, remove_ref) refl
      | inr (id, e) ↦ elim (Option-cases (lookup id h.srcs)) [
        | inl l ↦ rw (e, l, remove_ref) refl
        | inr (s, l) ↦ rw (e, l, remove_ref) refl
      ]
    ]

remove_refs-profiles :
    (owner : Bytes) (refs : List SourceRef) (h : Hub)
    → (remove_refs owner refs h).profiles ≡ h.profiles
unfolding remove_refs
remove_refs-profiles owner [] h = refl
remove_refs-profiles owner (r ∷ refs) h =
    remove_refs-profiles owner refs (remove_ref owner r h) ∙ remove_ref-profiles owner r h

module _ (opts : Options) (now : ℕ) where
  start_source_ref-profiles :
      (r : SourceRef) (owner : Bytes) (h : Hub)
      → ((start_source_ref opts now r owner h).0).profiles ≡ h.profiles
  unfolding start_source_ref add_file_source add_docker_source attach
  start_source_ref-profiles r owner h =
      let Same : Hub × Option ℕ → Type 0 = λ p. (p.0).profiles ≡ h.profiles in
      if_cases Same (str_eq r.kind kind_file) _ _
        (λ _.
          let path = if is_empty r.path then r.name else r.path in
          if_cases Same (is_empty path) _ _ (λ _. refl)
            λ _. elim (Option-cases (find_open_source kind_file path h.srcs)) [
              | inl e ↦ rw (e, add_file_source) refl
              | inr (j, e) ↦ rw (e, add_file_source) refl
            ])
        λ _.
          if_cases Same (str_eq r.kind kind_docker) _ _
            (λ _.
              if_cases Same (is_empty r.name) _ _ (λ _. refl)
                λ _. elim (Option-cases (find_open_source kind_docker r.name h.srcs)) [
                  | inl e ↦ elim (Bool-cases (opts.docker r.name)) [
                    | inl d ↦ rw (e, d, add_docker_source) refl
                    | inr d ↦ rw (e, d, add_docker_source) refl
                  ]
                  | inr (j, e) ↦ rw (e, add_docker_source) refl
                ])
            λ _. refl

  add_ref-profiles :
      (owner : Bytes) (r : SourceRef) (h : Hub) → (add_ref opts now owner r h).profiles ≡ h.profiles
  unfolding add_ref broadcast_source_state broadcast_source_event
  add_ref-profiles owner r h =
      let same_profiles = start_source_ref-profiles r owner h in
      elim (Option-cases ((start_source_ref opts now r owner h).1)) [
        | inl e ↦ rw (e, add_ref) same_profiles
        | inr (j, e) ↦ rw (e, add_ref) same_profiles
      ]

  add_refs-profiles :
      (owner : Bytes) (refs : List SourceRef) (h : Hub)
      → (add_refs opts now owner refs h).profiles ≡ h.profiles
  unfolding add_refs
  add_refs-profiles owner [] h = refl
  add_refs-profiles owner (r ∷ refs) h =
      add_refs-profiles owner refs (add_ref opts now owner r h) ∙ add_ref-profiles owner r h

  switch_to-profiles :
      (name : Bytes) (refs : List SourceRef) (h : Hub)
      → (switch_to opts now name refs h).profiles ≡ h.profiles
  unfolding switch_to
  switch_to-profiles name refs h =
      add_refs-profiles (owner_of name) (refs_minus refs h.active_profile_sources) _
      ∙ remove_refs-profiles (owner_of h.active_profile) (refs_minus h.active_profile_sources refs)
          h

  switch_to_again :
      (name : Bytes) (refs : List SourceRef) (h k : Hub)
      → switch_to opts now name refs h ≡ k
      → (later : ℕ) → switch_to opts later name refs k ≡ k
  unfolding switch_to remove_refs add_refs
  switch_to_again name refs h k e later =
      subst (λ (x : Hub). switch_to opts later name refs x ≡ x) e (rw (refs_minus_self refs) refl)

  activate_declared :
      (name : Bytes) (refs : List SourceRef) (h : Hub)
      → declared name h ≡ some refs
      → activate_profile opts now name h ≡ some (switch_to opts now name refs h)
  unfolding activate_profile
  activate_declared name refs h d = elim (Bool-cases (is_empty name)) [
    | inl p ↦
        let none_declared : [] ≡ refs = ground (arith, p, d) in
        subst (λ t. activate_profile opts now name h ≡ some (switch_to opts now name t h))
          none_declared (ground (arith, p))
    | inr p ↦
        let found : lookup name h.profiles ≡ some refs = ground (arith, p, d) in
        ground (arith, p, found)
  ]

module _ (opts : Options) (now later : ℕ) where
  -- Activating a profile once more, at any time, changes nothing: no source, no owner and no event.
  pub activate_profile_twice :
      (name : Bytes) (h k : Hub)
      → activate_profile opts now name h ≡ some k
      → activate_profile opts later name k ≡ some k
  activate_profile_twice name h k e =
      let (refs, found, made) = activate_profile-switch_to opts now name h k e in
      let same_profiles : k.profiles ≡ h.profiles =
        subst (λ (x : Hub). x.profiles ≡ h.profiles) made
          (switch_to-profiles opts now name refs h) in
      activate_declared opts later name refs k
        (ap (λ ps. if is_empty name then some [] else lookup name ps) same_profiles ∙ found)
      ∙ ap some (switch_to_again opts now name refs h k made later)

  -- A source that was started for a profile is left running, with no profile active, when a second
  -- profile of another name that declares all that the first one does is activated and then none is.
  pub shared_source_stays :
      (other : Bytes) (refs : List SourceRef) (h k l : Hub) (id : ℕ) (s : SourceRec)
      → IsHub h
      → s.owner ≡ owner_of h.active_profile
      → h.active_profile ≢ other
      → is_empty other ≡ false
      → lookup other h.profiles ≡ some refs
      → ((r : SourceRef) → listed r h.active_profile_sources ≡ true → listed r refs ≡ true)
      → activate_profile opts now other h ≡ some k
      → activate_profile opts later [] k ≡ some l
      → lookup id h.srcs ≡ some s
      → (lookup id l.srcs ≡ some s) × (l.active_profile ≡ []) × (l.active_profile_sources ≡ [])
  unfolding activate_profile
  shared_source_stays other refs h k l id s v o ne full found all first second at =
      let made : switch_to opts now other refs h ≡ k = ground (arith, full, found, first) in
      let none_gone = refs_minus-listed h.active_profile_sources refs all in
      let at_k : lookup id k.srcs ≡ some s =
        subst (λ (x : Hub). lookup id x.srcs ≡ some s) made
          (switch_to-kept opts now other refs h id s v (inl none_gone) at) in
      let sound : IsHub k = subst IsHub made (switch_to-IsHub opts now other refs h v) in
      let active : k.active_profile ≡ other =
        subst (λ (x : Hub). x.active_profile ≡ other) made (unfold switch_to in refl) in
      let last : switch_to opts later [] [] k ≡ l = ground (arith, second) in
      subst
        (λ (x : Hub).
          (lookup id x.srcs ≡ some s) × (x.active_profile ≡ []) × (x.active_profile_sources ≡ []))
        last
        (
          switch_to-kept opts later [] [] k id s sound
              (inr (λ q. ne (names (sym o ∙ q ∙ ap owner_of active)))) at_k,
          unfold switch_to in refl,
          unfold switch_to in refl,
        )
    where
      names : owner_of h.active_profile ≡ owner_of other → h.active_profile ≡ other
      names q = ground (arith, full, q)
