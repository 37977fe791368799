-- ===== src/Plugin/Wrapper/Methods/Tables.antt =====
-- Which method does what, in the order of libs/gl-plugin/src/node/wrapper.rs: first the methods of
-- core-lightning's service.
use greenlight.Prelude.{ℕ, List, [], ◌∷◌, codes}
use greenlight.Plugin.Wrapper.Methods.{Handler, inner, own}

abbrev pub info_methods : List (List ℕ × Handler)
info_methods =
    (codes "invoice", own)
    ∷ (codes "getinfo", inner (codes "getinfo"))
    ∷ (codes "list_offers", inner (codes "list_offers"))
    ∷ (codes "offer", inner (codes "offer"))
    ∷ (codes "bkpr_list_income", inner (codes "bkpr_list_income"))
    ∷ (codes "list_peers", inner (codes "list_peers"))
    ∷ (codes "list_peer_channels", inner (codes "list_peer_channels"))
    ∷ (codes "list_closed_channels", inner (codes "list_closed_channels"))
    ∷ (codes "list_funds", inner (codes "list_funds"))
    ∷ (codes "decode_pay", inner (codes "decode_pay"))
    ∷ (codes "decode", inner (codes "decode"))
    ∷ (codes "sign_invoice", inner (codes "sign_invoice"))
    ∷ (codes "pre_approve_keysend", inner (codes "pre_approve_keysend"))
    ∷ []

abbrev pub payment_methods : List (List ℕ × Handler)
payment_methods =
    (codes "pre_approve_invoice", inner (codes "pre_approve_invoice"))
    ∷ (codes "send_custom_msg", inner (codes "send_custom_msg"))
    ∷ (codes "send_pay", inner (codes "send_pay"))
    ∷ (codes "list_channels", inner (codes "list_channels"))
    ∷ (codes "add_gossip", inner (codes "add_gossip"))
    ∷ (codes "check_message", inner (codes "check_message"))
    ∷ (codes "close", inner (codes "close"))
    ∷ (codes "connect_peer", inner (codes "connect_peer"))
    ∷ (codes "create_invoice", inner (codes "create_invoice"))
    ∷ (codes "datastore", inner (codes "datastore"))
    ∷ (codes "create_onion", inner (codes "create_onion"))
    ∷ (codes "del_datastore", inner (codes "del_datastore"))
    ∷ (codes "del_invoice", inner (codes "del_invoice"))
    ∷ (codes "list_datastore", inner (codes "list_datastore"))
    ∷ (codes "list_invoices", inner (codes "list_invoices"))
    ∷ (codes "send_onion", inner (codes "send_onion"))
    ∷ (codes "list_send_pays", inner (codes "list_send_pays"))
    ∷ (codes "list_transactions", inner (codes "list_transactions"))
    ∷ (codes "pay", inner (codes "pay"))
    ∷ (codes "list_nodes", inner (codes "list_nodes"))
    ∷ (codes "wait_any_invoice", inner (codes "wait_any_invoice"))
    ∷ (codes "wait_invoice", inner (codes "wait_invoice"))
    ∷ []

abbrev pub wallet_methods : List (List ℕ × Handler)
wallet_methods =
    (codes "wait_send_pay", inner (codes "wait_send_pay"))
    ∷ (codes "wait_block_height", inner (codes "wait_block_height"))
    ∷ (codes "new_addr", inner (codes "new_addr"))
    ∷ (codes "withdraw", inner (codes "withdraw"))
    ∷ (codes "key_send", inner (codes "key_send"))
    ∷ (codes "fund_psbt", inner (codes "fund_psbt"))
    ∷ (codes "send_psbt", inner (codes "send_psbt"))
    ∷ (codes "sign_psbt", inner (codes "sign_psbt"))
    ∷ (codes "utxo_psbt", inner (codes "utxo_psbt"))
    ∷ (codes "tx_discard", inner (codes "tx_discard"))
    ∷ (codes "tx_prepare", inner (codes "tx_prepare"))
    ∷ (codes "tx_send", inner (codes "tx_send"))
    ∷ (codes "disconnect", own)
    ∷ (codes "feerates", inner (codes "feerates"))
    ∷ (codes "fund_channel", inner (codes "fund_channel"))
    ∷ (codes "get_route", inner (codes "get_route"))
    ∷ (codes "list_forwards", inner (codes "list_forwards"))
    ∷ (codes "list_pays", inner (codes "list_pays"))
    ∷ []

abbrev pub offer_methods : List (List ℕ × Handler)
offer_methods =
    (codes "ping", inner (codes "ping"))
    ∷ (codes "set_channel", inner (codes "set_channel"))
    ∷ (codes "sign_message", inner (codes "sign_message"))
    ∷ (codes "stop", inner (codes "stop"))
    ∷ (codes "static_backup", inner (codes "static_backup"))
    ∷ (codes "list_htlcs", inner (codes "list_htlcs"))
    ∷ (codes "datastore_usage", inner (codes "datastore_usage"))
    ∷ (codes "fetch_invoice", inner (codes "fetch_invoice"))
    ∷ (codes "wait", inner (codes "wait"))
    ∷ (codes "add_psbt_output", inner (codes "add_psbt_output"))
    ∷ (codes "auto_clean_once", inner (codes "auto_clean_once"))
    ∷ (codes "auto_clean_status", inner (codes "auto_clean_status"))
    ∷ (codes "dev_forget_channel", inner (codes "dev_forget_channel"))
    ∷ (codes "emergency_recover", inner (codes "emergency_recover"))
    ∷ (codes "get_emergency_recover_data", inner (codes "get_emergency_recover_data"))
    ∷ (codes "expose_secret", inner (codes "expose_secret"))
    ∷ (codes "recover", inner (codes "recover"))
    ∷ (codes "recover_channel", inner (codes "recover_channel"))
    ∷ (codes "create_invoice_request", inner (codes "create_invoice_request"))
    ∷ (codes "disable_invoice_request", inner (codes "disable_invoice_request"))
    ∷ (codes "list_invoice_requests", inner (codes "list_invoice_requests"))
    ∷ []
