-- ===== src/Sync/Quarantine/Tests.antt =====
-- Runs of the quarantine's names and of its purge, and their theorems at concrete inputs.
use selective_mirror.Base.{
  ◌≡◌, refl, false, none, some, List, [], ◌∷◌, ◌++◌, map, arith, keep, codes, same, is_empty, take,
}
use mathlib.Core.List.{reverse}
use selective_mirror.Base.Int.{pos}
use selective_mirror.Samples.{notes, defaults}
use selective_mirror.Config.{Project, parse_delete_policy, delete_policy}
use selective_mirror.Queue.{new_fair_queue}
use selective_mirror.Sync.{Env, World}
use selective_mirror.Sync.Quarantine.{
  Civil, is_date, stamp_of, find_stamp, parse_stamp, Cutoff, purge_expired_quarantine,
}
use selective_mirror.Sync.Quarantine.Purge.{Quarantined, entry_of, past, purge_call, purge-past}

abbrev leap_day : Civil
leap_day = record { year = 2024; month = 2; day = 29; hour = 23; minute = 5; second = 9 }

abbrev cutoff : Cutoff
cutoff = record { time = record leap_day { month = 3; day = 1 }; nanos = 5 }

stamp_text : stamp_of leap_day 70 ≡ codes "20240229T230509Z.000000070"
unfolding stamp_of
stamp_text = refl

-- The stamp is the last one in the name.
last_stamp :
    find_stamp (codes "a.19990101T000000Z.txt.20240229T230509Z.000000070")
    ≡ some (codes "20240229T230509Z")
unfolding find_stamp
last_stamp = refl

no_stamp : find_stamp (codes "a.20240229T230509Z.x") ≡ none
unfolding find_stamp
no_stamp = refl

no_such_day : parse_stamp (codes "20230229T230509Z") ≡ none
unfolding parse_stamp take
no_such_day = refl

abbrev env : Env
env = record {
  config = defaults;
  exit_of = λ n. pos 0;
  cancelled = λ n. false;
  db_fails = λ n. false;
  now = 8;
  stamp = λ n. [];
  like = λ pattern s. false;
}

abbrev world : World
world = record {
  rows = [];
  statements = 0;
  calls = [];
  actions = [];
  anomalies = [];
  queue = new_fair_queue 10 0;
}

abbrev keeping : Project
keeping = record notes { delete_policy_str = codes "quarantine" }

abbrev files : List Quarantined
files =
    record { path = codes "d/a"; name = codes "a"; size = 3; time = leap_day; nanos = 70 }
    ∷ record {
      path = codes "b";
      name = codes "b";
      size = 3;
      time = record leap_day { year = 2025; day = 28 };
      nanos = 0;
    }
    ∷ []

purge-past_example :
    ((purge_expired_quarantine env keeping cutoff (some (map entry_of files)) world).0.calls
      ≡ reverse (
          map
            (purge_call env keeping)
            (map (λ (q : Quarantined). q.path) (keep (past cutoff) files)))
        ++ [])
    × ((purge_expired_quarantine env keeping cutoff (some (map entry_of files)) world).0.rows ≡ [])
unfolding is_date parse_delete_policy selective_mirror.Config.delete_policy is_empty same
purge-past_example =
    purge-past env keeping cutoff files world refl ((omega arith, refl), ((omega arith, refl), tt))
