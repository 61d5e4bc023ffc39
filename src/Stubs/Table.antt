-- ===== src/Stubs/Table.antt =====
-- The functions that nolibc/stubs.c stubs out, in its order. NULL is 0, EOF is -1, EAGAIN is 10.
use ocaml_solo.Prelude.{ℕ, List, [], ◌∷◌}
use ocaml_solo.Prelude.Int.{pos, negsuc}
use ocaml_solo.Prelude.Text.{bytes}
use ocaml_solo.Stubs.{Stub, aborts, warns, ignores}

unfoldable pub table : List (List ℕ × Stub)
table =
    (bytes "fflush", warns (pos 0))
    ∷ (bytes "rename", aborts)
    ∷ (bytes "sscanf", aborts)
    ∷ (bytes "fread", warns (pos 0))
    ∷ (bytes "getc", warns (negsuc 0))
    ∷ (bytes "ungetc", warns (negsuc 0))
    ∷ (bytes "fwrite", warns (pos 0))
    ∷ (bytes "fputc", warns (negsuc 0))
    ∷ (bytes "fputs", warns (negsuc 0))
    ∷ (bytes "putc", warns (negsuc 0))
    ∷ (bytes "ferror", warns (pos 1))
    ∷ (bytes "fopen", warns (pos 1))
    ∷ (bytes "fclose", warns (pos 1))
    ∷ (bytes "getenv", warns (pos 0))
    ∷ (bytes "secure_getenv", warns (pos 0))
    ∷ (bytes "system", aborts)
    ∷ (bytes "qsort", aborts)
    ∷ (bytes "chdir", warns (negsuc 0))
    ∷ (bytes "close", aborts)
    ∷ (bytes "getcwd", aborts)
    ∷ (bytes "getpid", warns (pos 2))
    ∷ (bytes "getppid", warns (pos 1))
    ∷ (bytes "isatty", ignores (pos 0))
    ∷ (bytes "lseek", ignores (negsuc 0))
    ∷ (bytes "read", aborts)
    ∷ (bytes "readlink", ignores (negsuc 0))
    ∷ (bytes "unlink", aborts)
    ∷ (bytes "rmdir", aborts)
    ∷ (bytes "ftruncate", aborts)
    ∷ (bytes "execv", aborts)
    ∷ (bytes "execvp", aborts)
    ∷ (bytes "closedir", warns (negsuc 0))
    ∷ (bytes "opendir", warns (pos 0))
    ∷ (bytes "readdir", warns (pos 0))
    ∷ (bytes "fcntl", aborts)
    ∷ (bytes "open", warns (negsuc 0))
    ∷ (bytes "setjmp", ignores (pos 0))
    ∷ (bytes "signal", aborts)
    ∷ (bytes "raise", aborts)
    ∷ (bytes "strerror", aborts)
    ∷ (bytes "strcpy", aborts)
    ∷ (bytes "stat", warns (negsuc 0))
    ∷ (bytes "mkdir", aborts)
    ∷ (bytes "pthread_join", ignores (pos 0))
    ∷ (bytes "pthread_create", ignores (pos 10))
    ∷ (bytes "pthread_attr_init", ignores (pos 0))
    ∷ (bytes "pthread_cleanup_push", aborts)
    ∷ (bytes "pthread_cleanup_pop", aborts)
    ∷ (bytes "pthread_mutex_lock", ignores (pos 0))
    ∷ (bytes "pthread_mutex_trylock", ignores (pos 0))
    ∷ (bytes "pthread_mutex_unlock", ignores (pos 0))
    ∷ (bytes "pthread_mutex_destroy", ignores (pos 0))
    ∷ (bytes "pthread_mutex_init", ignores (pos 0))
    ∷ (bytes "pthread_mutexattr_init", ignores (pos 0))
    ∷ (bytes "pthread_mutexattr_destroy", ignores (pos 0))
    ∷ (bytes "pthread_mutexattr_settype", ignores (pos 0))
    ∷ (bytes "pthread_sigmask", ignores (pos 0))
    ∷ (bytes "pthread_equal", ignores (pos 1))
    ∷ (bytes "pthread_condattr_init", ignores (pos 0))
    ∷ (bytes "pthread_cond_init", ignores (pos 0))
    ∷ (bytes "pthread_cond_destroy", ignores (pos 0))
    ∷ (bytes "pthread_cond_wait", aborts)
    ∷ (bytes "pthread_cond_signal", aborts)
    ∷ (bytes "pthread_cond_broadcast", ignores (pos 0))
    ∷ (bytes "pthread_self", aborts)
    ∷ (bytes "pthread_detach", aborts)
    ∷ (bytes "pthread_cancel", ignores (pos 0))
    ∷ (bytes "pthread_exit", aborts)
    ∷ (bytes "sigfillset", ignores (pos 0))
    ∷ (bytes "sigwait", aborts)
    ∷ (bytes "usleep", aborts)
    ∷ (bytes "longjmp", aborts)
    ∷ (bytes "fstat", aborts)
    ∷ []
