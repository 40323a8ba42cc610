-- ===== src/CmdParser/Examples.antt =====
-- The parser of commands on concrete lines.
use pire2pire.Base.{◌<◌, ◌≡◌, refl, true, false, none, some, [], ◌∷◌, length, Bytes, codes}
use pire2pire.CmdParser.{
  OptionTemplate, arg_required, no_arg, ParsedCmd, parsed, initial_state, cmd_parse, is_a_delimiter,
  skip_delimiters, span_token, step_over, take_token, get_token, find_option, lookup_option,
  classify_long, classify_short, classify_dash, classify, mark_option, update_at, add_arg, present,
  present_with, fill_argv, finish_with, finish, parse_loop,
}
use pire2pire.CmdParser.Words.{words, parse_words, cmd_parse-parse_words}
use pire2pire.CmdParser.Argv.{positionals, cmd_parse-positionals}
use pire2pire.CmdParser.Options.{settings, apply_settings, cmd_parse-settings}

abbrev delay_entry : OptionTemplate
delay_entry = record { short_name = b'd'; long_name = codes "delay"; opt_arg = arg_required }

abbrev verbose_entry : OptionTemplate
verbose_entry = record { short_name = b'v'; long_name = codes "verbose"; opt_arg = no_arg }

abbrev list_line : Bytes
list_line = codes "list -d 2 key"

abbrev list_parsed : ParsedCmd
list_parsed = record {
  nb_template_options = 2;
  options =
      record { is_in_cmd = true; value = some (codes "2") }
      ∷ record { is_in_cmd = false; value = none }
      ∷ [];
  argc = 2;
  argv = codes "list" ∷ codes "key" ∷ [];
}

cmd_parse-parse_words_example :
    cmd_parse list_line (some (delay_entry ∷ verbose_entry ∷ []))
    ≡ parse_words
        (some (delay_entry ∷ verbose_entry ∷ []))
        (initial_state (some (delay_entry ∷ verbose_entry ∷ [])))
        (words list_line)
cmd_parse-parse_words_example =
    cmd_parse-parse_words list_line (some (delay_entry ∷ verbose_entry ∷ []))

list_line-parsed :
    cmd_parse list_line (some (delay_entry ∷ verbose_entry ∷ [])) ≡ parsed list_parsed
unfolding cmd_parse initial_state is_a_delimiter skip_delimiters span_token step_over take_token
    get_token find_option lookup_option classify_long classify_short classify_dash classify
    mark_option update_at add_arg present present_with fill_argv finish_with finish parse_loop
list_line-parsed = refl

cmd_parse-positionals_example :
    (list_parsed.argv ≡ positionals (some (delay_entry ∷ verbose_entry ∷ [])) (words list_line))
    × (list_parsed.argc ≡ length list_parsed.argv)
    × (0 < list_parsed.argc)
cmd_parse-positionals_example =
    cmd_parse-positionals list_line (some (delay_entry ∷ verbose_entry ∷ [])) list_parsed
      list_line-parsed

cmd_parse-settings_example :
    list_parsed.options
    ≡ apply_settings
        (settings (some (delay_entry ∷ verbose_entry ∷ [])) (words list_line))
        (initial_state (some (delay_entry ∷ verbose_entry ∷ []))).options
cmd_parse-settings_example =
    cmd_parse-settings list_line (some (delay_entry ∷ verbose_entry ∷ [])) list_parsed
      list_line-parsed
