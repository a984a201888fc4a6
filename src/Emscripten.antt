-- ===== src/Emscripten.antt =====
-- src/wasmjit/emscripten_runtime.c: what a module that emscripten made calls, on Linux.
pub mod Memory
pub mod Syscall
pub mod Program
mod Tests
