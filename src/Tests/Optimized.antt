-- ===== src/Tests/Optimized.antt =====
-- lower.c on a string of three bytes.
use computer_science.Prelude.{if◌then◌else◌, ◌==◌}
use computer_science.Optimization.{Bytes}

-- "AbC"
abbrev mixed : Bytes
mixed i = if i == 0 then b'A' else if i == 1 then b'b' else if i == 2 then b'C' else 0
