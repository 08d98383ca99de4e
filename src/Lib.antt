-- ===== src/Lib.antt =====
-- mirror-mirage: a daemon that watches the directory trees of a software mirror by inotify and
-- purges the URLs of changed files from CDNs. This library models its core and proves it.
--
-- The program's parts (paths from the repository's root) and the files that model them:
--   * src/mirror_mirage/config.py, the configuration: Config holds its records, Config/Load is
--     `load`, with the file system, PyYAML and pydantic as parameters.
--   * src/mirror_mirage/filter.py, the event filter: Glob is `_gm` and `matches_any_glob`,
--     Glob/Fnmatch the standard library's `fnmatchcase` that they call, Filter is `EventFilter`.
--   * src/mirror_mirage/mapper.py: Mapper is `Mapper.map`, and the part of `_pipeline`
--     (src/mirror_mirage/daemon.py) that joins it to the filter.
--   * src/mirror_mirage/batcher.py: Batcher has `submit`, `_flush_locked`, `flush_all` and the
--     block of `_debounce_loop` that computes the deadlines; Batcher/Slot is what it holds for one
--     CDN; Batcher/Steps is the debounce task with its surroundings as a step relation,
--     Batcher/Invariant the invariant of both; Batcher/Shutdown is the end of `run`.
--   * src/mirror_mirage/queue.py: Queue is the table `jobs` and a function for each statement;
--     Queue/Column the same over rows whose `urls_json` is text;
--     Queue/Race lets claimers interleave between the SELECT and the UPDATE of `claim_ready`;
--     Backoff is `exponential_backoff`.
--   * src/mirror_mirage/daemon.py, `_queue_worker`: Worker, a function for one round of its loop.
--   * src/mirror_mirage/providers/__init__.py: Providers/Build is `build_providers`.
--   * src/mirror_mirage/providers: Providers has what fastly.py, gcp.py and dry_run.py make of the
--     CDN's replies, Providers/Limiter the rate limiter of gcp.py, Providers/CloudFront the paths
--     and the error classes of cloudfront.py, Providers/Fastly the rest of fastly.py: the expansion
--     across domains, their discovery, and `purge`, Providers/Gcp the body of a call of gcp.py.
--     Providers/Endpoints joins the three to the mapper.
--   * Url is `urlparse` and `urlunparse` of the standard library, as of Python 3.12.
--   * `run` of src/mirror_mirage/daemon.py: Daemon, the pipeline's events and submissions, the
--     flushes, the claims and the settlings as one step relation over a batcher and a queue.
--   * src/mirror_mirage/watcher.py: Watcher is `InotifyWatcher`: `__aenter__` with its pre-flight,
--     `_add_recursive`, `_add_dir_and_scan`; Watcher/Events is `_iter`, a step relation over its
--     turns; Watcher/Files is the tree that a call sees, Watcher/Places says where
--     things stand in it;
--     the other children hold the proofs.
--   * src/mirror_mirage/__main__.py: Cli is `main`, with `run` of daemon.py up to its tasks.
--   * Json is `json.dumps` and `json.loads` on a list of strings, for the column `urls_json`.
-- An event runs from the watcher through filter, mapper and batcher; the batcher's batches become
-- jobs of the queue; a worker for each CDN claims them and calls the provider.
--
-- Prelude, Text, Dict, FilePath and Outcome hold what these share: tests and lists over the native
-- numbers, Python's strings as lists of code points, dictionaries as association lists in insertion
-- order, pathlib's pure paths, and results that may be an exception. Samples holds runs at concrete
-- inputs.
--
-- How the model differs from the program:
--   * Times are natural numbers of clock ticks, not floats, so that sums and comparisons are exact.
--     The one place where floats decide, the overflow of the backoff, is written out.
--   * A set of URLs is a list without repetition; Python gives its elements in no fixed order.
--   * An SQL statement is one step. In Queue the column `urls_json` holds the list that it
--     encodes; in Queue/Column it holds the text.
--   * The code between two `await`s is one step; a block under an `asyncio.Lock` is one step, since
--     nothing else under that lock interleaves.
--   * The file system under a directory is a tree that does not change during one call of the
--     watcher; inotify is what `add_watch` answers, which may depend on the watches held, and a
--     sequence of events.
--   * `queue.enqueue` and the queue's statements succeed, but for Batcher/Shutdown.
-- Loops are structural recursion, `json.loads` one character at a time. The only fuel
-- is in `decimal`, which needs one round for a digit and gets `n + 1`.
--
-- Not modelled: HTTP (with what httpx may raise besides HTTPError in a purge's call), boto3 and
-- google-auth, the bound on concurrent calls, a cancellation inside a
-- block, the end of `run` of daemon.py when a task fails, logging, argparse and signal handlers.
pub mod Prelude
pub mod Text
pub mod Dict
pub mod FilePath
pub mod Outcome
pub mod Config
pub mod Glob
pub mod Filter
pub mod Watcher
pub mod Mapper
pub mod Batcher
pub mod Json
pub mod Queue
pub mod Backoff
pub mod Worker
pub mod Url
pub mod Providers
pub mod Daemon
pub mod Cli
pub mod Samples
