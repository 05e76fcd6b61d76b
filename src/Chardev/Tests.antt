-- ===== src/Chardev/Tests.antt =====
-- The theorems on the character devices at concrete inputs.
use yocto_meta_hsiao.Base.{◌++◌, neg, List, drop, replicate, ◌≡◌, ◌∷◌, [], some, pos}
use yocto_meta_hsiao.Text.{codes, is_digit, digits_value, starts_digit, skip_blanks, is_blank}
use yocto_meta_hsiao.Text.Scan.{atoi, scan_number, scan_digits, as_int, skip_digits}
use yocto_meta_hsiao.Chardev.{Buffers, kerneldata, usrdata}
use yocto_meta_hsiao.Chardev.Cdev.{Run, run_all, run_all-traces}

abbrev cleared : Buffers
cleared = record { read_buf = replicate 256 0; write_buf = replicate 256 0 }

-- A run that reads, one with a wrong argument, and one that writes.
abbrev three : List Run
three =
    record { fd = 3; mode = codes "1"; closed = pos 0; stack = [] }
    ∷ record { fd = 3; mode = codes "7"; closed = pos 0; stack = [] }
    ∷ record { fd = 4; mode = codes "2"; closed = neg 5; stack = [] }
    ∷ []

three_traces :
    run_all (codes "app") (codes "/dev/chardevbase") three cleared
    ≡ some (record {
      read_buf = kerneldata ++ drop 13 cleared.read_buf;
      write_buf = usrdata ++ drop 10 cleared.write_buf;
    })
unfolding atoi scan_number scan_digits as_int skip_blanks is_blank is_digit starts_digit
    digits_value skip_digits
three_traces = run_all-traces (codes "app") (codes "/dev/chardevbase") three cleared
