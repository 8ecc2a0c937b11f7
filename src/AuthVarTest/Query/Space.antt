-- ===== src/AuthVarTest/Query/Space.antt =====
-- The check of the space in VerifyQuery.
use qemu_pipeline.Base.{ℕ, ◌+◌, ◌^◌, ◌≤◌, ◌<◌, ◌≡◌, true, arith, ◌↔◌}
use qemu_pipeline.AuthVarTest.Query.{space_is_used}

-- The check passes on every report of the remaining space, where the space at first, below 2 ^ 64,
-- was larger than the variable by 255 bytes or more: only the low byte of the report is compared.
pub space_is_used-weak :
    (remaining initial larger : ℕ)
    → initial < 2 ^ 64
    → larger + 255 ≤ initial
    → space_is_used remaining initial larger ≡ true
unfolding space_is_used
space_is_used-weak remaining initial larger h room = ground arith

-- On reports of one byte the check is what it is meant to be.
pub space_is_used_iff :
    (remaining initial larger : ℕ)
    → initial < 2 ^ 64
    → larger ≤ initial
    → remaining < 2 ^ 8
    → (space_is_used remaining initial larger ≡ true) ↔ (remaining + larger ≤ initial)
unfolding space_is_used
space_is_used_iff remaining initial larger h room small = (λ e. ground arith, λ e. ground arith)
