-- ===== src/Tests/Subscribers.antt =====
-- The subscribers of internal/store at concrete inputs.
use loggi.Prelude.{◌+◌, ◌-◌, ◌≡◌, refl, true, false, none, [], ◌∷◌, ◌++◌, arith, filter}
use loggi.Store.Bitmap.Ascending.{range}
use loggi.Store.Query.{passes}
use loggi.Store.Subscribers.{
  Subscriber, publish_to, resume_from, resume_walk, resume_end, resume_sub,
}
use loggi.Store.Subscribers.Live.{
  Live, subscribed, appended, delivered, resume_begin, resume_row, resume_done,
}
use loggi.Store.Subscribers.Owed.{Owed}
use loggi.Store.Subscribers.Resume.{resume_sub_lem, publish_to-resume_sub, publish_to-resume_walk}

-- Two rows, the second while the subscriber is paused, and then Resume.
abbrev empty_live : Live
empty_live = subscribed 0 0 4 1 none 0

abbrev one_row : Live
one_row = delivered (appended empty_live)

abbrev paused_live : Live
paused_live = record one_row { sub = record one_row.sub { paused = true } }

abbrev two_rows : Live
two_rows = delivered (appended paused_live)

abbrev resumed : Live
resumed = resume_done 2 (resume_row 1 2 none (resume_begin two_rows))

abbrev caught_up : Live
caught_up = record two_rows { sub = resume_sub two_rows.head two_rows.tail two_rows.sub }

-- A paused subscriber, two rows behind the tail.
abbrev paused_sub : Subscriber
paused_sub = record {
  id = 1;
  cursor = 1;
  filter = none;
  paused = true;
  dead = false;
  out = [];
  dropped = 0;
}

resume_sub_lem_example : resume_sub 6 3 paused_sub ≡ record paused_sub {
  out =
      [] ++ filter (passes none) (range (resume_from 3 paused_sub) (6 - resume_from 3 paused_sub));
  dropped = 0 + (resume_from 3 paused_sub - 1);
  cursor = 6;
  paused = false;
}
resume_sub_lem_example = resume_sub_lem 6 3 paused_sub refl (omega arith) (omega arith)

publish_to-resume_walk_example :
    (resume_end (publish_to 6 (resume_walk 6 3 paused_sub)) ≡ resume_sub 6 3 paused_sub)
    × ((publish_to 7 (resume_sub 6 3 paused_sub)).cursor ≡ 8)
    × (resume_sub 6 3 paused_sub).cursor ≡ 6
publish_to-resume_walk_example = publish_to-resume_walk 6 3 paused_sub refl refl (omega arith)

publish_to-resume_sub_example :
    (publish_to 5 (resume_sub 6 3 paused_sub)).out
    ≡ (([]
          ++ filter (passes none) (range (resume_from 3 paused_sub) (5 - resume_from 3 paused_sub)))
        ++ 5 ∷ [])
      ++ 5 ∷ []
unfolding passes
publish_to-resume_sub_example =
    publish_to-resume_sub 5 3 paused_sub refl (omega arith) (omega arith) refl (omega arith)
