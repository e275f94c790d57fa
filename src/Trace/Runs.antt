-- ===== src/Trace/Runs.antt =====
-- The theorems on the tracing at concrete input.
use double_swap.Base.{◌+◌, ◌/◌, ◌%◌, ◌≤◌, ◌≡◌, ◌↔◌, refl, [], ◌∷◌, arith}
use double_swap.Trace.Pages.{align_to_page_start, object_pages}
use double_swap.Trace.Pages.Cover.{IsLogged, byte-IsLogged_iff, last_page_missed}
use double_swap.Trace.Progress.{after_keys}
use double_swap.Trace.Progress.Tenths.{percentages, tens, reports_lem}

-- 40 bytes from 0x1ff0 on reach into the page at 0x2000, which is not logged.
straddling : object_pages 4096 0x1ff0 40 ≡ 0x1000 ∷ []
unfolding object_pages
straddling = refl

byte-IsLogged_iff_example :
    IsLogged (align_to_page_start (0x1ff0 + 3)) (object_pages 4096 0x1ff0 40)
    ↔ ((0x1ff0 % 4096 + 3) / 4096 ≤ 40 / 4096)
byte-IsLogged_iff_example = byte-IsLogged_iff 0x1ff0 40 3 (omega arith)

last_page_missed_example :
    ¬ IsLogged (align_to_page_start (0x1ff0 + 39)) (object_pages 4096 0x1ff0 40)
last_page_missed_example = last_page_missed 0x1ff0 40 (omega arith) (omega arith) (omega arith)

reports_lem_example : percentages (after_keys 25 (λ k. k) 25).reports ≡ tens 10
reports_lem_example = reports_lem 25 (omega arith) (λ k. k)
