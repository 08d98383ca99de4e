-- ===== src/Watcher/Places.antt =====
-- Where a directory or a file stands in a tree, by the names on the way, and which ways are ignored.
use mirror_mirage.Prelude.{
  ◌≡◌, sym, ap, ◌∙◌, ◌≢◌, ◌⊎◌, inl, inr, Bool, true, false, List, [], ◌∷◌, ◌++◌,
}
use mathlib.Core.List.{append_assoc, append-nil, append_cancel_left}
use mirror_mirage.Text.{Text}
use mirror_mirage.FilePath.{FilePath, extend, relative_to-extend}
use mirror_mirage.Glob.{matches_any_glob}
use mirror_mirage.Watcher.{is_ignored}
use mirror_mirage.Watcher.Files.{
  Tree, file, dir, Listing, locked, listed, Entries, end, entry, broken,
}

-- What stands at the names below a tree is a directory, or is none, as `kind` says.
unfoldable mutual
  pub At : Bool → Tree → List Text → Type 0
  At kind file [] = false ≡ kind
  At kind file (n ∷ ns) = ⊥
  At kind (dir l) [] = true ≡ kind
  At kind (dir locked) (n ∷ ns) = ⊥
  At kind (dir (listed es)) (n ∷ ns) = AtEntries kind es n ns

  pub AtEntries : Bool → Entries → Text → List Text → Type 0
  AtEntries kind end n ns = ⊥
  AtEntries kind (entry m child es) n ns = ((m ≡ n) × At kind child ns) ⊎ AtEntries kind es n ns
  AtEntries kind (broken es) n ns = AtEntries kind es n ns

abbrev pub AtListing : Bool → Listing → List Text → Type 0
AtListing kind l ns = At kind (dir l) ns

-- No name on the way, taken with all before it, is ignored; `done` are those before the first.
abbrev pub Clear : List Text → List Text → List Text → Type 0
Clear ignore done [] = Unit
Clear ignore done (n ∷ ns) =
    (matches_any_glob (done ++ n ∷ []) ignore ≡ false) × Clear ignore (done ++ n ∷ []) ns

-- An entry has the name; the names of a directory are distinct, at any depth.
abbrev pub Named : Text → Entries → Type 0
Named n end = ⊥
Named n (entry m child es) = (m ≡ n) ⊎ Named n es
Named n (broken es) = Named n es

unfoldable mutual
  pub HasDistinctNames : Tree → Type 0
  HasDistinctNames file = Unit
  HasDistinctNames (dir locked) = Unit
  HasDistinctNames (dir (listed es)) = HaveDistinctNames es

  pub HaveDistinctNames : Entries → Type 0
  HaveDistinctNames end = Unit
  HaveDistinctNames (entry n child es) =
      (¬ Named n es) × HasDistinctNames child × HaveDistinctNames es
  HaveDistinctNames (broken es) = HaveDistinctNames es

pub AtEntries-Named :
    (kind : Bool) (es : Entries) (n : Text) (ns : List Text) → AtEntries kind es n ns → Named n es
unfolding At
AtEntries-Named kind end n ns a = a
AtEntries-Named kind (entry m child es) n ns (inl (e, a)) = inl e
AtEntries-Named kind (entry m child es) n ns (inr a) = inr (AtEntries-Named kind es n ns a)
AtEntries-Named kind (broken es) n ns a = AtEntries-Named kind es n ns a

pub extend-extend :
    (root : FilePath) (ns : List Text) (n : Text)
    → extend (extend root ns) (n ∷ []) ≡ extend root (ns ++ n ∷ [])
unfolding extend
extend-extend root ns n = rw (append_assoc root.names ns (n ∷ []))

pub extend-cancel :
    (root : FilePath) (ns ms : List Text) → extend root ns ≡ extend root ms → ns ≡ ms
unfolding extend
extend-cancel root ns ms e = append_cancel_left root.names ns ms (ap (λ (p : FilePath). p.names) e)

-- Two places below a directory that go on with different names are different.
pub other_name :
    (root : FilePath) (ns : List Text) (n m : Text) (xs ys : List Text)
    → n ≢ m
    → ¬ (extend root (ns ++ n ∷ xs) ≡ extend root (ns ++ m ∷ ys))
other_name root ns n m xs ys ne e = ne (
    cc (
      append_cancel_left ns (n ∷ xs) (m ∷ ys) (extend-cancel root (ns ++ n ∷ xs) (ns ++ m ∷ ys) e)))

pub is_ignored-extend :
    (root : FilePath) (ns ignore : List Text)
    → is_ignored (extend root ns) root ignore ≡ matches_any_glob ns ignore
unfolding is_ignored
is_ignored-extend root ns ignore = rw (relative_to-extend root ns, is_ignored)

pub extend-nil : (root : FilePath) → extend root [] ≡ root
unfolding extend
extend-nil root = rw (append-nil root.names)

snoc-ne-nil : (ns : List Text) (n : Text) → ns ++ n ∷ [] ≢ []
snoc-ne-nil [] n e = cc
snoc-ne-nil (m ∷ ns) n e = cc

pub below-ne-root :
    (root : FilePath) (ns : List Text) (n : Text) → extend root (ns ++ n ∷ []) ≢ root
below-ne-root root ns n e =
    snoc-ne-nil ns n (extend-cancel root (ns ++ n ∷ []) [] (e ∙ sym (extend-nil root)))

-- The place of a child, from that of its directory.
pub child-place :
    (path root : FilePath) (ns : List Text) (name : Text)
    → path ≡ extend root ns
    → extend path (name ∷ []) ≡ extend root (ns ++ name ∷ [])
child-place path root ns name e =
    ap (λ (p : FilePath). extend p (name ∷ [])) e ∙ extend-extend root ns name

pub below-ne-here :
    (root : FilePath) (ns : List Text) (n : Text) (xs : List Text)
    → extend root (ns ++ n ∷ [] ++ xs) ≢ extend root ns
below-ne-here root ns n xs e = cons-ne-nil (
    append_cancel_left ns (n ∷ xs) [] (
      sym (append_assoc ns (n ∷ []) xs)
      ∙ extend-cancel root (ns ++ n ∷ [] ++ xs) ns e
      ∙ sym (append-nil ns)))
  where
    cons-ne-nil : n ∷ xs ≢ []
    cons-ne-nil c = cc
