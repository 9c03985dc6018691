-- ===== src/Dev/Com/Tests.antt =====
-- The serial line at a string of two characters.
use cerberos.Base.{◌≡◌, refl, arith, if◌then◌else◌, ◌==◌}
use cerberos.Mem.{Memory}
use cerberos.Dev.Com.{serial_com1, com_puts, com_write, line_of, com_puts-com_write}
use cerberos.Base.Result.{ok}

abbrev memory : Memory
memory = λ a. if a == 10 then 72 else if a == 11 then 105 else 0

com_puts-com_write_example :
    (com_puts 3 memory 10 ≡ ok (com_write memory serial_com1 10 2))
    × (com_write memory serial_com1 10 2 ≡ line_of memory 10 2)
com_puts-com_write_example =
    com_puts-com_write memory 2 3 10 (omega arith) (omega arith) (λ i lt. ground arith) refl
