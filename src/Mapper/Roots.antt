-- ===== src/Mapper/Roots.antt =====
-- Which bindings the mapper keeps for a root.
use mirror_mirage.Prelude.{◌≡◌, refl, ◌≢◌, some, List, [], ◌∷◌, ◌++◌, inl, inr, arith, In}
use mirror_mirage.FilePath.{FilePath, path_eq_iff, path_keys}
use mirror_mirage.Dict
use mirror_mirage.Dict.{Dict, get-put}
use mirror_mirage.Config.{Binding, WatchConfig}
use mirror_mirage.Mapper.{add_roots}

-- No two watches of the list are on one path.
abbrev pub DistinctPaths : List WatchConfig → Type 0
DistinctPaths [] = Unit
DistinctPaths (w ∷ ws) = ((v : WatchConfig) → In v ws → v.path ≢ w.path) × DistinctPaths ws

get-add_roots_fresh :
    (root : FilePath) (d : Dict FilePath (List Binding)) (ws : List WatchConfig)
    → ((v : WatchConfig) → In v ws → v.path ≢ root)
    → Dict.get root (add_roots d ws) ≡ Dict.get root d
unfolding add_roots
get-add_roots_fresh root d [] h = refl
get-add_roots_fresh root d (w ∷ ws) h =
    rw
      (
        get-add_roots_fresh root (Dict.put w.path w.bindings d) ws (λ v m. h v (inr m)),
        get-put w.path root w.bindings d,
      )
      (ground (arith, path_eq_iff w.path root, h w (inl refl)))

-- The last watch on a path gives the bindings of that root, whatever the watches before it say.
pub get-add_roots_last :
    (d : Dict FilePath (List Binding)) (ws : List WatchConfig) (w : WatchConfig)
    (vs : List WatchConfig)
    → ((v : WatchConfig) → In v vs → v.path ≢ w.path)
    → Dict.get w.path (add_roots d (ws ++ w ∷ vs)) ≡ some w.bindings
unfolding add_roots
get-add_roots_last d [] w vs h =
    rw
      (
        get-add_roots_fresh w.path (Dict.put w.path w.bindings d) vs h,
        get-put w.path w.path w.bindings d,
      )
      (ground (arith, path_eq_iff w.path w.path))
get-add_roots_last d (u ∷ ws) w vs h = get-add_roots_last (Dict.put u.path u.bindings d) ws w vs h

-- With distinct paths each watch keeps its own bindings.
pub get-add_roots :
    (d : Dict FilePath (List Binding)) (ws : List WatchConfig) (w : WatchConfig)
    → DistinctPaths ws
    → In w ws
    → Dict.get w.path (add_roots d ws) ≡ some w.bindings
unfolding add_roots
get-add_roots d [] w h m = absurd m
get-add_roots d (v ∷ ws) w h (inl e) = rw e (get-add_roots_last d [] v ws h.0)
get-add_roots d (v ∷ ws) w h (inr m) = get-add_roots (Dict.put v.path v.bindings d) ws w h.1 m
