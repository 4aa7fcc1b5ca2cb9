-- ===== src/Tests.antt =====
-- Concrete machines, and the theorems at concrete inputs.
mod Machine
mod Wire
mod NetTests
mod NedTests
mod CapTests
mod BootTests
mod LuaMachine
mod LuaTables
mod CastTests
mod StartTests
mod ModelTests
mod ObjectTests
mod LoaderTests
mod KernelTests
mod LibfsTests
mod TmpFsTests
mod ServiceTests
