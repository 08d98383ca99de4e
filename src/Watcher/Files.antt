-- ===== src/Watcher/Files.antt =====
-- A directory tree as the watcher sees it. `file` is whatever `is_dir(follow_symlinks=False)` denies,
-- symbolic links too.
use mirror_mirage.Text.{Text}

mutual
  pub data Tree : Type 0 where
    file : Tree
    dir : Listing → Tree

  -- What `os.scandir` gives for a directory: OSError, or its entries.
  pub data Listing : Type 0 where
    locked : Listing
    listed : Entries → Listing

  -- `broken` is an entry whose `is_dir` raises OSError.
  pub data Entries : Type 0 where
    end : Entries
    entry : Text → Tree → Entries → Entries
    broken : Entries → Entries
