-- ===== src/Plugin/Wrapper/Methods/MoreTables.antt =====
-- The remaining methods of core-lightning's service, and those of Greenlight's.
use greenlight.Prelude.{ℕ, List, [], ◌∷◌, codes}
use greenlight.Plugin.Wrapper.Methods.{Handler, inner, node_server, own, missing}

abbrev pub funding_methods : List (List ℕ × Handler)
funding_methods =
    (codes "make_secret", inner (codes "make_secret"))
    ∷ (codes "del_pay", inner (codes "del_pay"))
    ∷ (codes "del_forward", inner (codes "del_forward"))
    ∷ (codes "disable_offer", inner (codes "disable_offer"))
    ∷ (codes "enable_offer", inner (codes "enable_offer"))
    ∷ (codes "fund_channel_cancel", inner (codes "fund_channel_cancel"))
    ∷ (codes "fund_channel_complete", inner (codes "fund_channel_complete"))
    ∷ (codes "fund_channel_start", inner (codes "fund_channel_start"))
    ∷ (codes "get_log", inner (codes "get_log"))
    ∷ (codes "funder_update", inner (codes "funder_update"))
    ∷ (codes "list_addresses", inner (codes "list_addresses"))
    ∷ (codes "multi_fund_channel", inner (codes "multi_fund_channel"))
    ∷ (codes "multi_withdraw", inner (codes "multi_withdraw"))
    ∷ (codes "open_channel_abort", inner (codes "open_channel_abort"))
    ∷ (codes "open_channel_bump", inner (codes "open_channel_bump"))
    ∷ (codes "open_channel_init", inner (codes "open_channel_init"))
    ∷ (codes "open_channel_signed", inner (codes "open_channel_signed"))
    ∷ (codes "open_channel_update", inner (codes "open_channel_update"))
    ∷ (codes "plugin", inner (codes "plugin"))
    ∷ (codes "rene_pay_status", inner (codes "rene_pay_status"))
    ∷ (codes "rene_pay", inner (codes "rene_pay"))
    ∷ []

abbrev pub config_methods : List (List ℕ × Handler)
config_methods =
    (codes "reserve_inputs", inner (codes "reserve_inputs"))
    ∷ (codes "send_invoice", inner (codes "send_invoice"))
    ∷ (codes "set_config", inner (codes "set_config"))
    ∷ (codes "set_psbt_version", inner (codes "set_psbt_version"))
    ∷ (codes "splice_init", inner (codes "splice_init"))
    ∷ (codes "splice_signed", inner (codes "splice_signed"))
    ∷ (codes "splice_update", inner (codes "splice_update"))
    ∷ (codes "dev_splice", inner (codes "dev_splice"))
    ∷ (codes "unreserve_inputs", inner (codes "unreserve_inputs"))
    ∷ (codes "upgrade_wallet", inner (codes "upgrade_wallet"))
    ∷ (codes "list_configs", inner (codes "list_configs"))
    ∷ (codes "help", inner (codes "help"))
    ∷ (codes "bkpr_channels_apy", inner (codes "bkpr_channels_apy"))
    ∷ (codes "bkpr_dump_income_csv", inner (codes "bkpr_dump_income_csv"))
    ∷ (codes "bkpr_inspect", inner (codes "bkpr_inspect"))
    ∷ (codes "bkpr_list_account_events", inner (codes "bkpr_list_account_events"))
    ∷ (codes "bkpr_list_balances", inner (codes "bkpr_list_balances"))
    ∷ (codes "bkpr_edit_description_by_outpoint", inner (codes "bkpr_edit_description_by_outpoint"))
    ∷ (
      codes "bkpr_edit_description_by_payment_id",
      inner (codes "bkpr_edit_description_by_payment_id"),
    )
    ∷ (codes "blacklist_rune", inner (codes "blacklist_rune"))
    ∷ (codes "check_rune", inner (codes "check_rune"))
    ∷ []

abbrev pub rune_methods : List (List ℕ × Handler)
rune_methods =
    (codes "create_rune", inner (codes "create_rune"))
    ∷ (codes "show_runes", inner (codes "show_runes"))
    ∷ (codes "ask_rene_unreserve", inner (codes "ask_rene_unreserve"))
    ∷ (codes "ask_rene_list_layers", inner (codes "ask_rene_list_layers"))
    ∷ (codes "ask_rene_create_layer", inner (codes "ask_rene_create_layer"))
    ∷ (codes "ask_rene_remove_layer", inner (codes "ask_rene_remove_layer"))
    ∷ (codes "ask_rene_reserve", inner (codes "ask_rene_reserve"))
    ∷ (codes "ask_rene_age", inner (codes "ask_rene_age"))
    ∷ (codes "get_routes", inner (codes "get_routes"))
    ∷ (codes "ask_rene_disable_node", inner (codes "ask_rene_disable_node"))
    ∷ (codes "ask_rene_inform_channel", inner (codes "ask_rene_inform_channel"))
    ∷ (codes "ask_rene_create_channel", inner (codes "ask_rene_create_channel"))
    ∷ (codes "ask_rene_update_channel", inner (codes "ask_rene_update_channel"))
    ∷ (codes "ask_rene_bias_channel", inner (codes "ask_rene_bias_channel"))
    ∷ (codes "ask_rene_list_reservations", inner (codes "ask_rene_list_reservations"))
    ∷ (codes "inject_payment_onion", inner (codes "inject_payment_onion"))
    ∷ (codes "inject_onion_message", inner (codes "inject_onion_message"))
    ∷ (codes "xpay", inner (codes "xpay"))
    ∷ (codes "subscribe_block_added", missing)
    ∷ (codes "subscribe_channel_open_failed", missing)
    ∷ []

abbrev pub subscription_methods : List (List ℕ × Handler)
subscription_methods =
    (codes "subscribe_channel_opened", missing)
    ∷ (codes "subscribe_connect", missing)
    ∷ (codes "subscribe_custom_msg", missing)
    ∷ (codes "subscribe_channel_state_changed", missing)
    ∷ []

abbrev pub greenlight_methods : List (List ℕ × Handler)
greenlight_methods =
    (codes "lsp_invoice", node_server (codes "lsp_invoice"))
    ∷ (codes "stream_incoming", node_server (codes "stream_incoming"))
    ∷ (codes "respond_hsm_request", node_server (codes "respond_hsm_request"))
    ∷ (codes "stream_hsm_requests", own)
    ∷ (codes "stream_log", node_server (codes "stream_log"))
    ∷ (codes "stream_custommsg", node_server (codes "stream_custommsg"))
    ∷ (codes "configure", node_server (codes "configure"))
    ∷ (codes "trampoline_pay", node_server (codes "trampoline_pay"))
    ∷ []
