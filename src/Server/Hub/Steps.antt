-- ===== src/Server/Hub/Steps.antt =====
-- The calls that add, remove and switch sources keep the invariant of the table.
use loggi.Prelude.{
  ℕ, suc, ◌≡◌, refl, subst, inl, inr, Option, none, some, List, [], ◌∷◌, if◌then◌else◌, lookup,
  insert, delete, nat_eq, is_empty, arith, Bool-cases, Option-cases, if_cases,
}
use loggi.Text.{Bytes, str_eq, bytes_eq}
use loggi.Detect.Detector.{SourcePref}
use loggi.Server.Hub.{
  SourceRec, SourceRef, Hub, Options, kind_file, kind_stdin, kind_docker, find_open_source,
  find_open_source_with_owner, broadcast_source_event, broadcast_source_state, load_pref, new_rec,
  remove_source, with_columns, attach, add_file_source, add_stdin_source, add_docker_source,
  start_source_ref,
}
use loggi.Server.Hub.Profiles.{
  refs_minus, owner_of, ident_of, remove_ref, remove_refs, add_ref, add_refs, switch_to,
}
use loggi.Server.Hub.Health.{persist_pref, finalize_recommendation}
use loggi.Server.Hub.Registry.{
  IsHub, remove-IsTable, add-IsTable, skip-IsTable, change-IsTable, find_none, stdin_clash,
}

pub remove_source-IsHub : (id : ℕ) (h k : Hub) → remove_source id h ≡ some k → IsHub h → IsHub k
unfolding remove_source
remove_source-IsHub id h k e v = elim (Option-cases (lookup id h.srcs)) [
  | inl n ↦ absurd (ground (arith, n))
  | inr (r, l) ↦
      let same_hub : record h { srcs = delete id h.srcs } ≡ k = ground (arith, l) in
      subst IsHub same_hub (remove-IsTable h.generated id h.srcs v)
]

pub remove_ref-IsHub :
    (owner : Bytes) (r : SourceRef) (h : Hub) → IsHub h → IsHub (remove_ref owner r h)
unfolding remove_ref broadcast_source_event
remove_ref-IsHub owner r h v =
    elim (Option-cases (find_open_source_with_owner r.kind (ident_of r) owner h.srcs)) [
      | inl e ↦ rw (e, remove_ref) v
      | inr (id, e) ↦ elim (Option-cases (remove_source id h)) [
        | inl g ↦ rw (e, g, remove_ref) v
        | inr (k, g) ↦ rw (e, g, remove_ref) (remove_source-IsHub id h k g v)
      ]
    ]

pub remove_refs-IsHub :
    (owner : Bytes) (refs : List SourceRef) (h : Hub) → IsHub h → IsHub (remove_refs owner refs h)
unfolding remove_refs
remove_refs-IsHub owner [] h v = v
remove_refs-IsHub owner (r ∷ refs) h v =
    remove_refs-IsHub owner refs (remove_ref owner r h) (remove_ref-IsHub owner r h v)

module _ (opts : Options) (now : ℕ) where
  pub with_columns_lem :
      (pref : Option SourcePref) (r : SourceRec)
      → ((with_columns opts now pref r).kind ≡ r.kind)
        × ((with_columns opts now pref r).name ≡ r.name)
        × ((with_columns opts now pref r).owner ≡ r.owner)
        × ((with_columns opts now pref r).state ≡ r.state)
  unfolding with_columns
  with_columns_lem none r = (refl, refl, refl, refl)
  with_columns_lem (some pref) r =
      if_cases
        (λ (q : SourceRec).
          (q.kind ≡ r.kind) × (q.name ≡ r.name) × (q.owner ≡ r.owner) × (q.state ≡ r.state))
        pref.locked _ _ (λ _. (refl, refl, refl, refl)) λ _. (refl, refl, refl, refl)

  attach-IsHub :
      (kind name owner : Bytes) (h : Hub)
      → find_open_source kind name h.srcs ≡ none
      → IsHub h
      → IsHub (
          attach opts now
            (suc h.generated)
            kind
            name
            owner
            (record h { generated = suc h.generated }))
  unfolding attach
  attach-IsHub kind name owner h e v =
      let r = with_columns opts now (load_pref kind name h.prefs) (new_rec kind name owner) in
      let named = with_columns_lem (load_pref kind name h.prefs) (new_rec kind name owner) in
      add-IsTable h.generated r h.srcs (find_none kind name r h.srcs (named.0) (named.1) e) v

  pub add_file_source-IsHub :
      (path owner : Bytes) (h : Hub) → IsHub h → IsHub ((add_file_source opts now path owner h).0)
  unfolding add_file_source
  add_file_source-IsHub path owner h v =
      elim (Option-cases (find_open_source kind_file path h.srcs)) [
        | inl e ↦ rw (e, add_file_source) (attach-IsHub kind_file path owner h e v)
        | inr (id, e) ↦ rw (e, add_file_source) v
      ]

  pub add_stdin_source-IsHub :
      (name : Bytes) (h : Hub) → IsHub h → IsHub ((add_stdin_source opts now name h).0)
  unfolding add_stdin_source attach
  add_stdin_source-IsHub name h v =
      let r =
        with_columns opts now (load_pref kind_stdin name h.prefs) (new_rec kind_stdin name []) in
      let named =
        with_columns_lem (load_pref kind_stdin name h.prefs) (new_rec kind_stdin name []) in
      add-IsTable h.generated r h.srcs (stdin_clash r h.srcs (named.0)) v

  pub add_docker_source-IsHub :
      (name owner : Bytes) (h : Hub) → IsHub h → IsHub ((add_docker_source opts now name owner h).0)
  unfolding add_docker_source
  add_docker_source-IsHub name owner h v =
      elim (Option-cases (find_open_source kind_docker name h.srcs)) [
        | inl e ↦ elim (Bool-cases (opts.docker name)) [
          | inl d ↦ rw (e, d, add_docker_source) (attach-IsHub kind_docker name owner h e v)
          | inr d ↦ rw (e, d, add_docker_source) (skip-IsTable h.generated h.srcs v)
        ]
        | inr (id, e) ↦ rw (e, add_docker_source) v
      ]

  pub start_source_ref-IsHub :
      (r : SourceRef) (owner : Bytes) (h : Hub)
      → IsHub h
      → IsHub ((start_source_ref opts now r owner h).0)
  unfolding start_source_ref
  start_source_ref-IsHub r owner h v =
      let Good : Hub × Option ℕ → Type 0 = λ p. IsHub (p.0) in
      if_cases Good (str_eq r.kind kind_file) _ _
        (λ _.
          let path = if is_empty r.path then r.name else r.path in
          if_cases Good (is_empty path) _ _ (λ _. v) λ _. add_file_source-IsHub path owner h v)
        λ _.
          if_cases Good (str_eq r.kind kind_docker) _ _
            (λ _.
              if_cases Good (is_empty r.name) _ _ (λ _. v)
                λ _. add_docker_source-IsHub r.name owner h v)
            λ _. v

  pub add_ref-IsHub :
      (owner : Bytes) (r : SourceRef) (h : Hub) → IsHub h → IsHub (add_ref opts now owner r h)
  unfolding add_ref broadcast_source_state broadcast_source_event
  add_ref-IsHub owner r h v =
      let w = start_source_ref-IsHub r owner h v in
      elim (Option-cases ((start_source_ref opts now r owner h).1)) [
        | inl e ↦ rw (e, add_ref) w
        | inr (id, e) ↦ rw (e, add_ref) w
      ]

  add_refs-IsHub :
      (owner : Bytes) (refs : List SourceRef) (h : Hub)
      → IsHub h
      → IsHub (add_refs opts now owner refs h)
  unfolding add_refs
  add_refs-IsHub owner [] h v = v
  add_refs-IsHub owner (r ∷ refs) h v =
      add_refs-IsHub owner refs (add_ref opts now owner r h) (add_ref-IsHub owner r h v)

  pub switch_to-IsHub :
      (name : Bytes) (refs : List SourceRef) (h : Hub)
      → IsHub h
      → IsHub (switch_to opts now name refs h)
  unfolding switch_to
  switch_to-IsHub name refs h v =
      let gone = refs_minus h.active_profile_sources refs in
      let come = refs_minus refs h.active_profile_sources in
      add_refs-IsHub (owner_of name) come (remove_refs (owner_of h.active_profile) gone h)
        (remove_refs-IsHub (owner_of h.active_profile) gone h v)

-- The parts of the hub that the table is about stay; the record of one source may change.
pub finalize-IsHub :
    (now id : ℕ) (cols : List Bytes) (h : Hub)
    → IsHub h
    → IsHub (finalize_recommendation now id cols h)
unfolding finalize_recommendation broadcast_source_event
finalize-IsHub now id cols h v =
    if_cases IsHub (is_empty cols) _ _ (λ _. v)
      λ c. elim (Option-cases (lookup id h.srcs)) [
        | inl l ↦ rw l v
        | inr (r, l) ↦
            let pinned : Hub = record h {
              srcs = insert id (record r { pinned_columns = cols }) h.srcs;
            } in
            let w : IsHub pinned =
              change-IsTable h.generated id _ r h.srcs l
                (record { kind = refl; name = refl; state = λ p. p }) v in
            rw l (persist_pref-IsHub pinned r.kind r.name w)
      ]
  where
    persist_pref-IsHub :
        (k : Hub) (kind name : Bytes) → IsHub k → IsHub (persist_pref now kind name cols k)
    persist_pref-IsHub k kind name w = elim (Option-cases k.prefs) [
      | inl e ↦ unfold persist_pref in rw (e, persist_pref) w
      | inr (prefs, e) ↦ unfold persist_pref in rw (e, persist_pref) w
    ]
