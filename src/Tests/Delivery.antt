-- ===== src/Tests/Delivery.antt =====
-- A whole print of src/drivers/AbstractDriver.cpp, MarlinDriver.cpp at a concrete input.
use print3d.Prelude.{◌++◌, ◌≡◌, refl, some, [], ◌∷◌, true, arith, map}
use print3d.Prelude.Int.{ℤ, pos}
use print3d.Prelude.Text.{Bytes, codes, starts_with, find_text, rfind_text}
use print3d.GcodeBuffer.State.{new}
use print3d.GcodeBuffer.Counts.{IsValid}
use print3d.GcodeBuffer.Clean.Whole.{whole_lines}
use print3d.Driver.State.{Driver, new_driver, idle, printing, is_printer_online, is_printing}
use print3d.Driver.Print.{start_print}
use print3d.Driver.Response.{read_lines}
use print3d.Driver.Delivery.Lines.{sent_line, AreLines}
use print3d.Driver.Delivery.Sending.{Delivered}
use print3d.Driver.Delivery.Answers.{Answers, done, notice, confirm}
use print3d.Driver.Delivery.Whole.{start_print-Delivered}

abbrev no_number : Bytes → ℤ
no_number s = pos 0

-- Two buckets, three lines.
abbrev loaded : Driver
loaded = record new_driver {
  state = idle;
  is_open = true;
  gcode_buffer = record new {
    buckets = codes "G28\nM109 S200\n" ∷ codes "M107\n" ∷ [];
    buffered_lines = pos 3;
    total_lines_sent = pos 3;
    buffer_size = pos 19;
  };
}

loaded-IsValid : IsValid loaded.gcode_buffer
unfolding whole_lines
loaded-IsValid = record {
  whole = (refl, (refl, tt));
  counted = refl;
  sent = omega arith;
  current = omega arith;
}

three_lines : AreLines (codes "G28" ∷ codes "M109 S200" ∷ codes "M107" ∷ [])
unfolding rfind_text
three_lines = (refl, (tt, tt), (refl, (omega arith, tt), (refl, (tt, tt), tt)))

three-Answers : Answers 3 (codes "ok" ∷ codes "echo:busy" ∷ codes "ok" ∷ codes "ok 0" ∷ [])
unfolding starts_with find_text
three-Answers =
    confirm (codes "ok") (refl, refl)
      (notice (codes "echo:busy") (refl, refl, refl)
        (confirm (codes "ok") (refl, refl) (confirm (codes "ok 0") (refl, refl) done)))

start_print-Delivered_example :
    (x e : Driver) × (start_print no_number loaded printing ≡ some (x, true))
    × (read_lines no_number x (codes "ok" ∷ codes "echo:busy" ∷ codes "ok" ∷ codes "ok 0" ∷ [])
        ≡ some e)
    × Delivered e
        (loaded.sent ++ map sent_line (codes "G28" ∷ codes "M109 S200" ∷ codes "M107" ∷ []))
unfolding is_printing is_printer_online
start_print-Delivered_example =
    start_print-Delivered no_number loaded printing
      (codes "G28" ∷ codes "M109 S200" ∷ codes "M107" ∷ [])
      (codes "ok" ∷ codes "echo:busy" ∷ codes "ok" ∷ codes "ok 0" ∷ []) refl refl refl
      loaded-IsValid (λ z. cc, tt) refl three_lines three-Answers
