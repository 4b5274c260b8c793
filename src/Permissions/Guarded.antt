-- ===== src/Permissions/Guarded.antt =====
-- Which write paths the protected patterns catch (src/thumbelina/tools/permissions.py).
use mathlib.Core.List.{append-nil}
use mathlib.Core.Path.{subst, sym}
use thumbelina.Prelude.{
  ℕ, String, true, some, List, [], ◌∷◌, ◌++◌, ◌≡◌, refl, ap, ◌∙◌, arith, str_eq, eq_iff, contains,
  is_some, Bool-cases, inl, inr,
}
use thumbelina.Permissions.Modes.{PermissionMode, Verdict}
use thumbelina.Permissions.Paths.{
  PathContext, PathKind, codes, segments, base_parts, relative_parts, guards, first_guard,
  is_protected, parts_start, ends_in_slash, protected_path_patterns, classify_write_path,
  evaluate_write_file,
}
use thumbelina.Permissions.Spelled.{
  IsSlash, Spells, segments-slash, Spells-segments, parts_start-append, drop-append,
  ends_in_slash-append,
}

module _ (x : PathContext) (parts rel : List (List ℕ)) where
  first_guard_complete :
      (gs : List String) (g : String)
      → contains gs g ≡ true
      → guards x parts rel g ≡ true
      → is_some (first_guard x parts rel gs) ≡ true
  unfolding first_guard
  first_guard_complete [] g m h = cc
  first_guard_complete (k ∷ gs) g m h = elim (Bool-cases (str_eq k g)) [
    | inl e ↦
        let hit = subst (λ y. guards x parts rel y ≡ true) (sym ((eq_iff k g).0 e)) h in
        ground arith
    | inr e ↦ ground (arith, first_guard_complete gs g (rw e at m) h)
  ]

directory_guards :
    (x : PathContext) (parts rel : List (List ℕ)) (g : String)
    → ends_in_slash (codes g) ≡ true
    → parts_start rel (segments x (codes g)) ≡ true
    → guards x parts rel g ≡ true
unfolding guards
directory_guards x parts rel g s h = rw (s, guards) (rw h)

module _ (x : PathContext) (ws : String) (open_in : x.workspace ≡ some ws) where
  base_parts_lem : base_parts x ≡ segments x (codes ws)
  unfolding base_parts
  base_parts_lem = rw open_in refl

  -- behind the workspace there are the segments that follow it
  relative_parts-behind :
      (rest : List (List ℕ)) → relative_parts x (segments x (codes ws) ++ rest) ≡ rest
  unfolding relative_parts
  relative_parts-behind rest =
      rw (base_parts_lem, parts_start-append (segments x (codes ws)) rest)
        (drop-append (segments x (codes ws)) rest)

  module _ (path g : String) (c d : ℕ) (name spelled rest : List ℕ)
      (is_guard : codes g ≡ name ++ 47 ∷ [])
      (is_path : codes path ≡ codes ws ++ (c ∷ (spelled ++ (d ∷ rest)))) (first : IsSlash c)
      (second : IsSlash d) (alike : Spells spelled name) where
    segments_of_guard : segments x (codes g) ≡ segments x name
    unfolding segments
    segments_of_guard =
        ap (segments x) is_guard
        ∙ segments-slash x name [] 47 (inl refl)
        ∙ append-nil (segments x name)

    segments_of_path :
        segments x (codes path) ≡ segments x (codes ws) ++ (segments x name ++ segments x rest)
    segments_of_path =
        ap (segments x) is_path
        ∙ segments-slash x (codes ws) (spelled ++ (d ∷ rest)) c first
        ∙ ap (λ l. segments x (codes ws) ++ l)
            (segments-slash x spelled rest d second
              ∙ ap (λ l. l ++ segments x rest) (Spells-segments x spelled name alike))

    -- the code's test of the guard holds
    guard_starts :
        parts_start (relative_parts x (segments x (codes path))) (segments x (codes g)) ≡ true
    guard_starts =
        rw (segments_of_guard, segments_of_path)
          (rw (relative_parts-behind (segments x name ++ segments x rest))
            (parts_start-append (segments x name) (segments x rest)))

-- The text of a path is that of the open workspace, a slash or a backslash, the name of a protected
-- directory in any case of its ASCII letters and with either kind of slash inside, a slash or a
-- backslash, and any text. The path is protected, wherever it resolves to: writing there is denied in
-- WORKSPACE_WRITE and put to the user in GLOBAL_WRITE.
pub protected_directory :
    (x : PathContext) (ws path g : String) (c d : ℕ) (name spelled rest : List ℕ)
    → x.workspace ≡ some ws
    → contains protected_path_patterns g ≡ true
    → codes g ≡ name ++ 47 ∷ []
    → codes path ≡ codes ws ++ (c ∷ (spelled ++ (d ∷ rest)))
    → IsSlash c
    → IsSlash d
    → Spells spelled name
    → (classify_write_path x path ≡ PathKind.protected)
      × ((evaluate_write_file x PermissionMode.workspace_write path).verdict ≡ Verdict.deny)
      × ((evaluate_write_file x PermissionMode.global_write path).verdict ≡ Verdict.confirm)
unfolding is_protected classify_write_path evaluate_write_file
protected_directory x ws path g c d name spelled rest o m i j k l h =
    let parts = segments x (codes path) in
    let rel = relative_parts x parts in
    let ends = ap ends_in_slash i ∙ ends_in_slash-append name in
    let found = first_guard_complete x parts rel protected_path_patterns g m (
      directory_guards x parts rel g ends
        (guard_starts x ws o path g c d name spelled rest i j k l h)) in
    (rw found, rw found, rw found)
