-- ===== src/Mlpl/Tests.antt =====
-- The theorems on server/mlpl/src at concrete inputs.
use hatohol.Base.{◌≡◌, ◌≢◌, refl, ◌↔◌, length, codes}
use hatohol.Mlpl.StringUtils.Chars.{vsprintf, sprintf_buf_on_stack_length, vsprintf_whole_iff}

vsprintf_whole_iff_example :
    (vsprintf (codes "id: 3") ≡ codes "id: 3")
    ↔ (length (codes "id: 3") ≢ sprintf_buf_on_stack_length)
vsprintf_whole_iff_example = vsprintf_whole_iff (codes "id: 3") refl
