-- ===== src/Samples/Running.antt =====
-- The daemon from its start to the first job.
use mirror_mirage.Prelude.{◌≡◌, refl, some, List, [], ◌∷◌, inl, inr}
use mirror_mirage.Text
use mirror_mirage.Text.{Text, codes}
use mirror_mirage.Dict
use mirror_mirage.FilePath
use mirror_mirage.Config.{Config}
use mirror_mirage.Glob
use mirror_mirage.Glob.Fnmatch
use mirror_mirage.Filter
use mirror_mirage.Filter.{event_filter, normalize}
use mirror_mirage.Mapper
use mirror_mirage.Mapper.{PurgeTarget, mapper, pipeline_targets}
use mirror_mirage.Batcher
use mirror_mirage.Queue.{empty}
use mirror_mirage.Daemon
use mirror_mirage.Daemon.{Seen, Reach, here, next, started}
use mirror_mirage.Daemon.Delivery.{NotLost, Reach-NotLost}
use mirror_mirage.Samples.Events.{watches, release}
use mirror_mirage.Samples.Batches

abbrev config : Config
config = record { cdns = []; watches = watches; daemon = Batches.cfg; credentials = [] }

abbrev release_target : PurgeTarget
release_target = record { cdn_name = codes "edge"; url = codes "https://m/Release" }

abbrev both_targets : List PurgeTarget
both_targets =
    record { cdn_name = codes "gcp"; url = codes "https://i/Release" } ∷ release_target ∷ []

release_targets :
    pipeline_targets (event_filter watches) (mapper watches) (codes "IN_MOVED_TO") release
    ≡ some both_targets
unfolding pipeline_targets normalize event_filter Filter.sort_watches Filter.owner Filter.kind_of
    Filter.is_one_of FilePath.relative_to FilePath.path_eq FilePath.as_posix Glob.matches_any_glob
    Text.split_slash Text.rstrip_slash Text.join Glob.gm Fnmatch.fnmatchcase Fnmatch.on_suffixes
    Text.text_eq mapper Mapper.add_roots Mapper.map_event Mapper.target Dict.get Dict.put
release_targets = refl

-- The pipeline takes the event and submits both of its targets.
abbrev seen_release : Seen
seen_release = record { mask = codes "IN_MOVED_TO"; path = release; last_id = 0 }

abbrev taken : Daemon.Daemon
taken = record (started empty) { todo = both_targets; seen = seen_release ∷ [] }

abbrev image_target : PurgeTarget
image_target = record { cdn_name = codes "gcp"; url = codes "https://i/Release" }

abbrev after_submit : PurgeTarget → List PurgeTarget → Daemon.Daemon → Daemon.Daemon
after_submit t rest s = record s {
  batcher = (Batcher.submit Batches.cfg 10 t s.batcher).0;
  db = Daemon.hand_over 1000 (Batcher.submit Batches.cfg 10 t s.batcher).1 s.db;
  todo = rest;
}

abbrev both_submitted : Daemon.Daemon
both_submitted =
    after_submit release_target [] (after_submit image_target (release_target ∷ []) taken)

abbrev flushed : Daemon.Daemon
flushed = record both_submitted {
  batcher = (Batcher.flush_locked (codes "edge") both_submitted.batcher).0;
  db =
      Daemon.hand_over 1012 (Batcher.flush_locked (codes "edge") both_submitted.batcher).1
        both_submitted.db;
}

to_flush : Reach config (started empty) flushed
unfolding started mirror_mirage.Queue.reset_in_flight
to_flush =
    next
      (next
        (next
          (next here (Daemon.event (codes "IN_MOVED_TO") release both_targets refl release_targets))
          (Daemon.submit image_target (release_target ∷ []) 10 1000 refl))
        (Daemon.submit release_target [] 10 1000 refl))
      (Daemon.flush (codes "edge") 1012)

Reach-NotLost_example : NotLost release_target 0 flushed
Reach-NotLost_example =
    Reach-NotLost config empty seen_release both_targets release_target to_flush (inl refl)
      release_targets (inr (inl refl))
