-- ===== src/Tests/NginxModule.antt =====
-- What the nginx module registers.
use pinpoint_cpp_examples.Common.{
  ◌≡◌, refl, true, Option, some, none, [], ◌∷◌, Text, lit, text_eq, text_eq_refl, if◌then◌else◌,
}
use pinpoint_cpp_examples.Nginx.Worker.{
  Flag, unset, on, off, MainConf, worker, create_main_conf, process_life,
}
use pinpoint_cpp_examples.Nginx.Module.{
  Slots, SetsOnce, read_conf, enable_line, file_line, read_conf-ordered,
}
use pinpoint_cpp_examples.Tests.Nginx.{willing}

abbrev set_once : Text → Flag → Option Flag
set_once value unset = if text_eq value (lit "on") then some on else some off
set_once value _ = none

abbrev set_text : Text → Text → Option Text
set_text value [] = some value
set_text value (c ∷ s) = none

abbrev setters : Slots
setters = record { set_flag = set_once; set_str = set_text }

setters_once : SetsOnce setters
setters_once = record { sets_on = rw (text_eq_refl (lit "on")) refl; sets_str = λ value. refl }

read_conf-ordered_example :
    let file = lit "/etc/pinpoint/nginx-agent.yaml" in
    let enable = enable_line setters setters_once file in
    let named = file_line setters setters_once file in
    let conf : Option MainConf = some (record { enable = on; config_file = file }) in
    (read_conf setters (enable ∷ named ∷ []) (create_main_conf true) ≡ conf)
    × (read_conf setters (named ∷ enable ∷ []) (create_main_conf true) ≡ conf)
    × ((process_life worker
          (record willing { conf = read_conf setters [] (create_main_conf true) })).0
        ≡ [])
read_conf-ordered_example =
    read_conf-ordered setters setters_once (lit "/etc/pinpoint/nginx-agent.yaml") willing
