-- ===== src/Rar/Names.antt =====
-- The names of archives and videos, as both scripts of rar-cleanup-scripts read them.
use podhaus.Base.Codes.{after_prefix, lower, codes, is_digit, Text, search_in}
use podhaus.Base.{Bool, true, List, false, ◌∷◌, [], none, if◌then◌else◌, ◌||◌, ◌==◌, some, ◌&&◌}

-- `VIDEO_EXTS`, `SCENE_META_EXTS`
abbrev pub video_exts : List Text
video_exts =
    codes ".mkv" ∷ codes ".mp4" ∷ codes ".avi" ∷ codes ".m4v" ∷ codes ".mov" ∷ codes ".ts" ∷ []

abbrev pub scene_meta_exts : List Text
scene_meta_exts = codes ".sfv" ∷ codes ".srr" ∷ codes ".srs" ∷ codes ".nfo" ∷ []

-- `$`: the end, or a newline before it
is_end : Text → Bool
is_end [] = true
is_end (c ∷ []) = c == 10
is_end _ = false

two_digits_or_ar : Text → Bool
unfolding is_end
two_digits_or_ar (a ∷ b ∷ cs) =
    ((a == b'a' && b == b'r') || (is_digit a && is_digit b)) && is_end cs
two_digits_or_ar _ = false

-- `RAR_SUFFIX_RE.match`
unfoldable pub is_rar_suffix : Text → Bool
unfolding after_prefix lower two_digits_or_ar
is_rar_suffix s = elim (after_prefix (codes ".r") (lower s)) [
  | none ↦ false
  | some rest ↦ two_digits_or_ar rest
]

rar_end : Text → Bool
unfolding after_prefix is_end
rar_end cs = elim (after_prefix (codes ".rar") cs) [ none ↦ false | some rest ↦ is_end rest ]

skip_digits : Text → Text
skip_digits [] = []
skip_digits (c ∷ cs) = if is_digit c then skip_digits cs else c ∷ cs

skip_zeros : Text → Text
skip_zeros [] = []
skip_zeros (c ∷ cs) = if c == b'0' then skip_zeros cs else c ∷ cs

digits_rar : Text → Bool
unfolding skip_digits rar_end
digits_rar [] = false
digits_rar (c ∷ cs) = is_digit c && rar_end (skip_digits cs)

one_rar : Text → Bool
unfolding rar_end
one_rar [] = false
one_rar (c ∷ cs) = c == b'1' && rar_end cs

unfoldable pub part_at : (Text → Bool) → Text → Bool
unfolding after_prefix
part_at number cs = elim (after_prefix (codes ".part") cs) [
  | none ↦ false
  | some rest ↦ number rest
]

-- `RAR_PART_RE.search` of remediate.py
unfoldable pub is_rar_part : Text → Bool
unfolding search_in part_at digits_rar lower
is_rar_part name = search_in (part_at digits_rar) (lower name)

-- `RAR_PART_RE.search` of audit.py
unfoldable pub is_first_part : Text → Bool
unfolding search_in part_at one_rar skip_zeros lower
is_first_part name = search_in (part_at (λ cs. one_rar (skip_zeros cs))) (lower name)
