-- ===== src/Kernel/Server.antt =====
-- `ProcessPreimageOracle::start` of crates/cannon/src/proc_oracle.rs: the file descriptors that the server's
-- process is given.
use cannon_rs.Prelude.{
  ℕ, suc, ◌+◌, ◌≡◌, refl, ◌==◌, if◌then◌else◌, Option, none, some, List, [], ◌∷◌, length, Result,
  ok, ◌>>=◌,
}
use cannon_rs.Kernel.Decimal.{Text}
use cannon_rs.Preimage.Keys.{PreimageFds, preimage_fd}

-- A `ReadWritePair` as its two descriptors.
pub record Descriptors : Type 0 where
  pub reader : ℕ
  pub writer : ℕ

-- `FdMapping`.
pub record FdMapping : Type 0 where
  pub parent_fd : ℕ
  pub child_fd : ℕ

-- `fds.iter().enumerate().map(|(i, fd)| ...)`, from the index `i` on.
unfoldable pub mappings_from : ℕ → List ℕ → List FdMapping
mappings_from i [] = []
mappings_from i (fd ∷ fds) = record { parent_fd = fd; child_fd = 3 + i } ∷ mappings_from (suc i) fds

-- The mappings of the command: the hint channel's ends, and then those of the preimage channel.
unfoldable pub fd_mappings : Descriptors → Descriptors → List FdMapping
unfolding mappings_from
fd_mappings hint preimage =
    mappings_from 0 (hint.reader ∷ hint.writer ∷ preimage.reader ∷ preimage.writer ∷ [])

-- `start`: with an empty command there is no process. The operating system is a parameter. The ends
-- of the client are kept by the oracle.
unfoldable pub start :
    {Child Client : Type 0}
    → (Text → List Text → List FdMapping → Result Child)
    → Text
    → List Text
    → Client
    → Descriptors
    → Descriptors
    → Result (Client × Option Child)
unfolding fd_mappings
start spawn cmd args client hint preimage =
    if length cmd == 0
    then ok (client, none)
    else (spawn cmd args (fd_mappings hint preimage) >>= λ child. ok (client, some child))

-- The descriptor of the parent that the child sees as `fd`.
unfoldable pub parent_of : ℕ → List FdMapping → Option ℕ
parent_of fd [] = none
parent_of fd (mapping ∷ mappings) =
    if mapping.child_fd == fd then some mapping.parent_fd else parent_of fd mappings

-- The numbers that the client programs use, `PreimageFds`, are in the server's process the ends that
-- the parent made for it: the hint channel's reader and writer, and those of the preimage channel; no
-- other descriptor is mapped.
pub fd_mappings-PreimageFds :
    (hint preimage : Descriptors)
    → (parent_of (preimage_fd PreimageFds.hint_client_read) (fd_mappings hint preimage)
        ≡ some hint.reader)
      × (parent_of (preimage_fd PreimageFds.hint_client_write) (fd_mappings hint preimage)
          ≡ some hint.writer)
      × (parent_of (preimage_fd PreimageFds.preimage_client_read) (fd_mappings hint preimage)
          ≡ some preimage.reader)
      × (parent_of (preimage_fd PreimageFds.preimage_client_write) (fd_mappings hint preimage)
          ≡ some preimage.writer)
      × (length (fd_mappings hint preimage) ≡ 4)
unfolding parent_of preimage_fd fd_mappings
fd_mappings-PreimageFds hint preimage = (refl, refl, refl, refl, refl)
