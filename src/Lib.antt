-- ===== src/Lib.antt =====
-- node-ffi-napi: calling C functions from JavaScript through libffi.
--
-- A caller names the C types of a function's arguments and result; the library turns each into the
-- `ffi_type` that libffi wants, prepares an `ffi_cif` from them, and returns a JavaScript function
-- that marshals its arguments into C values, calls, and reads the result.
--
-- Which file models which part:
-- - Effect: JavaScript's effects, as a state with a result or an exception; what was written before a
--   throw stays written. Effect/Laws has the rules for what a run ensures.
-- - PointerArray: a Buffer filled by `writePointer`, as its size and its writes in order.
-- - Bindings: the table FFI_TYPES of `FFI::InitializeBindings` in src/ffi.cc.
-- - Constants: the object that `InitializeBindings` of src/ffi.cc returns, as the list of what is
--   assigned to it (entries): libffi's constants, the ABIs of the platform (abi_names), the flags of
--   dlopen and dlsym (defined_names) and the sizes. The build is the parameter `Build`. Exports takes
--   the object.
-- - Types: `Type` of lib/type.js. A type object is an index; what reading its properties gives is
--   the parameter `Ref`, and its own property `ffi_type`, which the code assigns to, is the state
--   `Types`, with the structs FFI_TYPE that the code makes. The functions follow the code's branches:
--   direct, or_array, or_struct with make_struct and fill, or_named with search_chain.
-- - Cif: `CIF` of lib/cif.js and `CIF_var` of lib/cif_var.js, over the same state.
-- - Foreign: `ForeignFunction` of lib/_foreign_function.js (make_proxy, call, call_async, run_task) and
--   of lib/foreign_function.js (foreign_function). The event loop is a list of tasks, of which any may
--   be taken next (Step).
-- - Variadic: `VariadicForeignFunction`, its generator and `getId` of lib/foreign_function_var.js.
-- - Dynamic: `DynamicLibrary` of lib/dynamic_library.js: the constructor with its retry through a linker
--   script (dynamic_library, follow, redirect), its two patterns (script_path, group_file), close, get,
--   path_of. The functions of the system are the parameter `System`.
-- - Windows: src/win32-dlfcn.cc, a `System` over the parameter `Win32`: the static variable `lastError` is a
--   field of the state `Windows`, and `sprintf` is written out (message, decimal).
-- - Static: the proxies of `dlopen`, `dlclose`, `dlsym` and `dlerror` that lib/dynamic_library.js makes
--   (load_proxies), the `System` that they are (system_of), and lib/errno.js (load_errno, errno).
-- - Exports: the loop of lib/ffi.js that exports properties of `bindings`, and the loop that fills the
--   flags of `DynamicLibrary`.
-- - Library: `Library` of lib/library.js: the table of extensions (ext), the name of the file (with_ext), the
--   library that is opened or given, and the loop over the functions (define_all), which uses Dynamic,
--   Foreign and Variadic.
-- - Callback: `Callback` of lib/callback.js, and `CallbackInfo::Callback` and `CallbackInfo::DispatchToV8`
--   of src/callback_info.cc. invoke is the function that libffi's closure calls; dispatch_to_v8 says where
--   its error goes; the closures that are alive are a part of the state `Making`.
-- - Threads: `CallbackInfo::Invoke` on other threads and `CallbackInfo::WatcherCallback`, with
--   src/threaded_callback_invokation.cc, as a step relation: any number of calls, each at some place of
--   the code (Phase), the queue, and the main thread (Main).
-- - FunctionType: lib/function.js, over Callback and Foreign.
-- - Init: what lib/ffi.js assigns when it is loaded: the `ffi_type` of the built-in types (load).
-- - FfiCalls: `FFIPrepCif`, `FFIPrepCifVar`, `FFICall`, `FFICallAsync`, `AsyncFFICall` and `FinishAsyncFFICall`
--   of src/ffi.cc, with the checks of their arguments, over the parameter `Process`. Foreign takes what they do
--   as its parameters `Libffi` and `Native`.
-- - Prelude: shared names, tests on numbers, lists and tables. Tests: runs on concrete inputs.
--
-- Not under this repository, and so parameters: ref-napi (`Ref`: the type objects, `coerceType`, the
-- size of a pointer; `Native`: `alloc`, `deref`), libffi (`Libffi`: statuses and the two functions that
-- prepare an `ffi_cif`; `Native`: the call itself; `Closures`), the system (`System`; on Windows,
-- `Win32`), the compiler and the headers of a build (`Build`), the memory as callbacks and function
-- types read and write it (`Memory`, `Pointers`), JavaScript's strings, numbers and Buffers as values
-- (`Values`), and the types of ref-napi under their names (`RefTypes`). `CoerceLaws`, `MemoryLaws`,
-- `ClosureLaws` and `IsRefNapi` state what these document.
--
-- Bounds: `Type` recurs into the fields of structs on fuel, which bounds how deep structs nest. An id
-- is `(counter * 0x10000) | 0` in hexadecimal, with the wrap-around to 32 signed bits written out, so
-- that ids repeat after 65536 types. The constructor of DynamicLibrary calls itself on fuel, which bounds
-- how many linker scripts name one another. The text of an id has at most eight
-- digits, and that of a 32-bit error number at most ten.
--
-- In Threads, a mutex is held or free by the place in the code. libuv may wake a thread that was not
-- signalled, and its loop may end at rest while `uv_ref` does not hold it open: the state records both
-- (early, ended), and Threads/Woken has runs where a call returns unexecuted or is never woken. What
-- becomes of an invocation that was freed in the queue, and a race on the flag itself, are left out.
--
-- Not modelled: the debug output, and what only keeps Buffers from the garbage collector; `FFI_TYPES`
-- read under a name of `Object.prototype`; lib/bindings.js, which loads the native module and calls
-- `InitializeBindings`, and the pointer to ref-napi's instance that this keeps; deps/libffi, which is
-- another project; in lib/ffi.js, that the exports of the other files are put on `exports`, and what
-- requiring these does, as the assertion of lib/type.js on FFI_TYPE_SIZE.
pub mod Prelude
pub mod Effect
pub mod Bindings
pub mod PointerArray
pub mod Types
pub mod Cif
pub mod Foreign
pub mod Variadic
pub mod Dynamic
pub mod Init
pub mod Threads
pub mod Callback
pub mod FunctionType
pub mod Library
pub mod FfiCalls
pub mod Windows
pub mod Static
pub mod Constants
pub mod Exports
pub mod Tests
