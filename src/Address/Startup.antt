-- ===== src/Address/Startup.antt =====
-- net/Socket.cpp: `Startup`, which the constructor of `CInit_WSA` calls.
use boring.Prelude.{ℕ, ◌==◌, not, ◌||◌, ◌%◌, ◌/◌, Bool, true, false, if◌then◌else◌, ◌≡◌, refl}

-- `MAKEWORD(2, 2)`.
abbrev pub wanted_version : ℕ
wanted_version = 514

-- From what `WSAStartup` returns and the version it gives: what `Startup` returns, and how often it
-- calls `WSACleanup`.
unfoldable pub startup : ℕ → ℕ → Bool × ℕ
startup err version =
    if not (err == 0)
    then (false, 0)
    else if not (version % 256 == 2) || not (version / 256 % 256 == 2)
    then (false, 1)
    else (true, 0)

accepts_wanted : startup 0 wanted_version ≡ (true, 0)
unfolding startup
accepts_wanted = refl
