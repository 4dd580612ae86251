-- ===== src/Platform/Uart.antt =====
-- The polled UART, which keeps the bytes that were sent (crates/fs-platform/src/lib.rs).
use fuzzsoft.Base.{ℕ, List, [], ◌∷◌, ◌++◌, ◌==◌, if◌then◌else◌}
use fuzzsoft.Fault.{u8}

pub record Uart : Type 0 where
  pub out : List ℕ

-- The line status always says ready.
unfoldable pub load : Uart → ℕ → ℕ
load u off = if off == 5 then 0x60 else 0

unfoldable pub store : Uart → ℕ → ℕ → Uart
store u off val = if off == 0 then record { out = u.out ++ (u8 val ∷ []) } else u
