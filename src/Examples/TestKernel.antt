-- ===== src/Examples/TestKernel.antt =====
-- Examples for the test kernel's console.
use rustsbi_d.Base.{ℕ, ◌≡◌, true, List, [], ◌∷◌, arith}
use rustsbi_d.Spl.Logging.{put_all}
use rustsbi_d.TestKernel.Console.{Level, info, write_str, log}
use rustsbi_d.TestKernel.Console.Drivers.{putchars, write_str-put_all}
use rustsbi_d.TestKernel.Console.Terminal.{feed, feed-log, showing}
use rustsbi_d.Examples.Models.{Uart, is_full, thr_write}

abbrev busy_uart : Uart
busy_uart = (true, [])

write_str-put_all_example :
    (write_str is_full thr_write 2 (b'o' ∷ b'k' ∷ []) busy_uart
      ≡ put_all is_full thr_write 2 (b'o' ∷ b'k' ∷ []) busy_uart)
    × (putchars is_full thr_write 2 (b'o' ∷ b'k' ∷ []) busy_uart
        ≡ put_all is_full thr_write 2 (b'o' ∷ b'k' ∷ []) busy_uart)
write_str-put_all_example = write_str-put_all is_full thr_write 2 (b'o' ∷ b'k' ∷ []) busy_uart

abbrev name : Level → List ℕ
name info = b'I' ∷ b'N' ∷ b'F' ∷ b'O' ∷ []
name _ = []

feed-log_example :
    feed (log name info (b'h' ∷ b'i' ∷ [])) (showing 0 [])
    ≡ showing 0 (
        (34, b'[')
        ∷ (34, b' ')
        ∷ (34, b'I')
        ∷ (34, b'N')
        ∷ (34, b'F')
        ∷ (34, b'O')
        ∷ (34, b']')
        ∷ (34, b' ')
        ∷ (34, b'h')
        ∷ (34, b'i')
        ∷ (0, 10)
        ∷ [])
feed-log_example =
    feed-log name info (b'h' ∷ b'i' ∷ []) []
      (
        (λ e. absurd (omega (arith, e))),
        (
          (λ e. absurd (omega (arith, e))),
          ((λ e. absurd (omega (arith, e))), ((λ e. absurd (omega (arith, e))), tt)),
        ),
      )
      ((λ e. absurd (omega (arith, e))), ((λ e. absurd (omega (arith, e))), tt))
