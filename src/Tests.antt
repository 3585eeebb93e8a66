-- ===== src/Tests.antt =====
-- Tests of the definitions, and the theorems at concrete inputs.
mod UnwindTests
mod CallTests
mod WordTests
mod ValueTests
mod TableTests
mod VariableTests
mod LockTests
mod JoinTests
mod SemaphoreTests
mod DemangleTests
mod DispatchTests
mod ApplyTests
mod SlotTests
mod SymbolTests
