-- ===== src/Flood/IgnoreTests.antt =====
-- A file of one share, a path that is added to it, and the theorems about the run.
use podhaus.Flood.Stignore.Again.{rendered_with-validate}
use podhaus.Flood.Stignore.Reconciled.{IsUnion, reconcile-All}
use podhaus.Flood.Stignore.{
  IgnoreFile, reconcile, routes_of, whitelist_marker, Share, route, default_shares, validate,
  deny_marker, share_at, ignore_file, rendered_with, terminal_deny, rendered_lines,
}
use podhaus.Base.{List, All, Option, ℕ, ◌∷◌, [], some, ◌++◌, ◌≡◌, none, refl}
use podhaus.Base.Codes.{Text, codes, starts_with, join_lines, split_lines}
use podhaus.Files.{FilePath}

abbrev old_lines : List Text
old_lines =
    codes "/tmp" ∷ whitelist_marker ∷ [] ∷ codes "!/B" ∷ [] ∷ deny_marker ∷ terminal_deny ∷ []

abbrev old : Text
old = join_lines (old_lines ++ [] ∷ [])

abbrev new_lines : List Text
new_lines =
    codes "/tmp"
    ∷ whitelist_marker
    ∷ []
    ∷ codes "!/a"
    ∷ codes "!/B"
    ∷ []
    ∷ deny_marker
    ∷ terminal_deny
    ∷ []

abbrev new : Text
new = join_lines (new_lines ++ [] ∷ [])

abbrev shares : List Share
shares = share_at (codes "TV") ∷ []

abbrev tv : FilePath
tv = codes "data" ∷ codes "TV" ∷ []

abbrev content_of : FilePath → Option Text
content_of p = some old

abbrev same_order : List Text → List Text
same_order lines = lines

abbrev checked : IgnoreFile
checked = record { lines = old_lines; whitelist_index = 1; deny_index = 5 }

valid_old : validate (split_lines old) ≡ some checked
unfolding join_lines split_lines validate
valid_old = refl

written :
    reconcile same_order content_of shares (codes "/data/TV/a" ∷ [])
    ≡ some ((ignore_file tv, new) ∷ [])
unfolding reconcile join_lines route
written = refl

routed : routes_of shares (codes "/data/TV/a" ∷ []) ≡ some ((tv, codes "!/a") ∷ [])
unfolding routes_of
routed = refl

-- The root of a share is refused, and so is a path of no share.
refuses_root : routes_of shares (codes "/data/TV/" ∷ []) ≡ none
unfolding routes_of
refuses_root = refl

refuses_other : routes_of default_shares (codes "/data/Music/x" ∷ []) ≡ none
unfolding routes_of
refuses_other = refl

reconcile-All_example :
    All (IsUnion content_of shares ((tv, codes "!/a") ∷ [])) ((ignore_file tv, new) ∷ [])
reconcile-All_example =
    reconcile-All same_order content_of shares (codes "/data/TV/a" ∷ []) ((tv, codes "!/a") ∷ [])
      ((ignore_file tv, new) ∷ []) (λ line lines. refl) routed (refl, tt) written

rendered_with-validate_example :
    (d : ℕ) × (validate (split_lines (rendered_with same_order checked (codes "!/a" ∷ [])))
      ≡ some (record {
        lines = rendered_lines same_order checked (codes "!/a" ∷ []);
        whitelist_index = 1;
        deny_index = d;
      }))
unfolding starts_with
rendered_with-validate_example =
    rendered_with-validate same_order old checked (codes "!/a" ∷ []) (λ line lines. refl) valid_old
      (refl, tt) (refl, tt)
