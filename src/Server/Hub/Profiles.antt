-- ===== src/Server/Hub/Profiles.antt =====
-- internal/server/server.go: the overlay of a profile's sources (ActivateProfile).
use loggi.Prelude.{
  ℕ, Bool, false, ◌&&◌, ◌||◌, not, Option, none, some, List, [], ◌∷◌, ◌++◌, if◌then◌else◌, lookup,
  is_empty,
}
use loggi.Text.{Bytes, codes, str_eq, bytes_eq}
use loggi.Server.Hub.{
  running, closed, SourceRef, Hub, Options, kind_file, find_open_source_with_owner,
  broadcast_source_event, broadcast_source_state, remove_source, start_source_ref,
}

abbrev pub same_ref : SourceRef → SourceRef → Bool
same_ref r q = str_eq r.kind q.kind && str_eq r.name q.name

-- The loop over `b`.
unfoldable pub listed : SourceRef → List SourceRef → Bool
listed r [] = false
listed r (q ∷ b) = same_ref r q || listed r b

unfoldable pub refs_minus : List SourceRef → List SourceRef → List SourceRef
unfolding listed
refs_minus [] b = []
refs_minus (r ∷ a) b = if listed r b then refs_minus a b else r ∷ refs_minus a b

abbrev pub owner_of : Bytes → Bytes
owner_of name = if is_empty name then [] else codes "profile:" ++ name

-- What the source of a reference is called.
abbrev pub ident_of : SourceRef → Bytes
ident_of r = if not (is_empty r.path) && str_eq r.kind kind_file then r.path else r.name

unfoldable pub remove_ref : Bytes → SourceRef → Hub → Hub
unfolding find_open_source_with_owner remove_source broadcast_source_event
remove_ref owner r h = elim (find_open_source_with_owner r.kind (ident_of r) owner h.srcs) [
  | none ↦ h
  | some id ↦ elim (remove_source id h) [
    | none ↦ h
    | some h' ↦
        broadcast_source_event
          (record {
            source_id = id;
            kind = r.kind;
            name = ident_of r;
            state = closed;
            mode = none;
            columns = [];
          })
          h'
  ]
]

unfoldable pub remove_refs : Bytes → List SourceRef → Hub → Hub
unfolding remove_ref
remove_refs owner [] h = h
remove_refs owner (r ∷ refs) h = remove_refs owner refs (remove_ref owner r h)

module _ (opts : Options) (now : ℕ) where
  unfoldable pub add_ref : Bytes → SourceRef → Hub → Hub
  unfolding start_source_ref broadcast_source_state
  add_ref owner r h =
      let (h', started) = start_source_ref opts now r owner h in
      elim started [ none ↦ h' | some id ↦ broadcast_source_state id running h' ]

  unfoldable pub add_refs : Bytes → List SourceRef → Hub → Hub
  unfolding add_ref
  add_refs owner [] h = h
  add_refs owner (r ∷ refs) h = add_refs owner refs (add_ref owner r h)

  -- The switch to these references.
  unfoldable pub switch_to : Bytes → List SourceRef → Hub → Hub
  unfolding refs_minus remove_refs add_refs
  switch_to name new_refs h =
      let old_refs = h.active_profile_sources in
      let removed = remove_refs (owner_of h.active_profile) (refs_minus old_refs new_refs) h in
      let added = add_refs (owner_of name) (refs_minus new_refs old_refs) removed in
      record added { active_profile = name; active_profile_sources = new_refs }

  -- `none` is the error of an unknown profile.
  unfoldable pub activate_profile : Bytes → Hub → Option Hub
  unfolding switch_to
  activate_profile name h =
      if is_empty name
      then some (switch_to name [] h)
      else elim (lookup name h.profiles) [ none ↦ none | some refs ↦ some (switch_to name refs h) ]
