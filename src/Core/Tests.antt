-- ===== src/Core/Tests.antt =====
-- Three rows, of which two lines fit.
use haikit.Prelude.{◌≡◌, ◌≤◌, ◌++◌, List, [], ◌∷◌, Text, lit, length, map, take}
use haikit.Core.Cap.{cap, after_break, cap_head, join_lines, Stopped, cap-bound}

abbrev flights : List Text
flights = lit "AB 1" ∷ lit "AB 2" ∷ lit "AB 300" ∷ []

abbrev row_text : Text → Text
row_text t = t

cap-bound_example :
    let r = cap 7 flights row_text 8 12 in
    let lines = take r.shown (map row_text flights) in
    (r.text ≡ cap_head (length flights) 7 r.shown ++ after_break lines)
    × (r.shown ≤ 8)
    × (length (join_lines lines) ≤ 12)
    × Stopped 12 0 (map row_text (take 8 flights)) lines
cap-bound_example = cap-bound 7 flights row_text 8 12
