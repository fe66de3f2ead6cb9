-- ===== src/Module/Config/Tests.antt =====
-- The settings of a concrete file.
use ax88179_aroma_driver.Base.{◌≤◌, ◌≡◌, refl, arith, Bytes, [], ◌∷◌, some}
use ax88179_aroma_driver.Module.Config.{
  defaults, past, has, lines, digits, unsigned, number, signed, level, read_line, read_lines,
  load_config,
}
use ax88179_aroma_driver.Module.Config.Last.{asked, load_config-asked}

-- "shim_trace= 7", "mode=always" and "shim_trace=x"
abbrev file : Bytes
file =
    115 ∷ 104 ∷ 105 ∷ 109 ∷ 95 ∷ 116 ∷ 114 ∷ 97 ∷ 99 ∷ 101 ∷ 61 ∷ 32 ∷ 55 ∷ 10 ∷ 109 ∷ 111 ∷ 100
    ∷ 101 ∷ 61 ∷ 97 ∷ 108 ∷ 119 ∷ 97 ∷ 121 ∷ 115 ∷ 10 ∷ 115 ∷ 104 ∷ 105 ∷ 109 ∷ 95 ∷ 116 ∷ 114 ∷ 97
    ∷ 99 ∷ 101 ∷ 61 ∷ 120 ∷ []

load_config-asked_example :
    (load_config (some file) defaults ≡ asked (lines 127 file) defaults)
    × ((load_config (some file) defaults).shim_trace ≤ 2)
load_config-asked_example = load_config-asked file defaults (omega arith)

load_config_runs : (load_config (some file) defaults).shim_trace ≡ 2
unfolding load_config read_lines read_line lines has level past number signed unsigned digits
load_config_runs = refl
