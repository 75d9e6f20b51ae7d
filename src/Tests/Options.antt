-- ===== src/Tests/Options.antt =====
-- Runs of the command line.
use violet_gw.Prelude.{ℕ, List, [], ◌∷◌}
use violet_gw.Datapath.{bytes_of_text}
use violet_gw.Datapath.Flags.{Flags, default_flags, datapath_config_from_flags}
use violet_gw.Datapath.Laws.{Answers, datapath_config_from_flags-Answers}

abbrev program : List ℕ
program = bytes_of_text "vgw"

-- `-l 0-3 --datapath_mode rtc --rtc_workers=1 -- --io_ring_size`
abbrev args : List (List ℕ)
args =
    bytes_of_text "-l"
    ∷ bytes_of_text "0-3"
    ∷ bytes_of_text "--datapath_mode"
    ∷ bytes_of_text "rtc"
    ∷ bytes_of_text "--rtc_workers=1"
    ∷ bytes_of_text "--"
    ∷ bytes_of_text "--io_ring_size"
    ∷ []

abbrev rtc_flags : Flags
rtc_flags = record default_flags { datapath_mode = bytes_of_text "rtc"; rtc_workers = 2 }

datapath_config_from_flags-Answers_example :
    Answers rtc_flags (datapath_config_from_flags rtc_flags)
datapath_config_from_flags-Answers_example = datapath_config_from_flags-Answers rtc_flags
