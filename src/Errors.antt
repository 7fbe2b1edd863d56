-- ===== src/Errors.antt =====
-- The error codes of the contract (contracts/predictify-hybrid/src/err.rs).
use predictify_contracts.Base.{ℕ}

-- `enum Error`
pub data Error : Type 0 where
  unauthorized market_not_found market_closed market_resolved market_not_resolved : Error
  nothing_to_claim already_claimed insufficient_stake invalid_outcome already_voted : Error
  already_bet bets_already_placed insufficient_balance oracle_unavailable : Error
  invalid_oracle_config oracle_stale oracle_no_consensus oracle_verified market_not_ready : Error
  fallback_oracle_unavailable resolution_timeout_reached oracle_confidence_too_wide : Error
  invalid_oracle_feed oracle_callback_auth_failed oracle_callback_unauthorized : Error
  oracle_callback_invalid_signature oracle_callback_replay_detected : Error
  oracle_callback_timeout invalid_question invalid_outcomes invalid_duration : Error
  invalid_threshold invalid_comparison invalid_state invalid_input invalid_fee_config : Error
  config_not_found already_disputed dispute_vote_expired dispute_vote_denied : Error
  dispute_already_voted dispute_cond_not_met dispute_fee_failed dispute_error : Error
  disputer_cannot_vote sweep_already_done fee_arithmetic_overflow fee_already_collected : Error
  no_fees_to_collect invalid_extension_days extension_denied gas_budget_exceeded : Error
  operation_would_exceed_budget admin_not_set asset_decimals_mismatch question_too_long : Error
  outcome_too_long too_many_outcomes feed_id_too_long comparison_too_long : Error
  category_too_long tag_too_long too_many_tags extension_reason_too_long source_too_long : Error
  error_message_too_long signature_too_long too_many_extensions too_many_oracle_results : Error
  too_many_winning_outcomes force_resolve_already_used archive_full category_too_short : Error
  tag_too_short duplicate_market_id replayed_override cb_not_initialized cb_already_open : Error
  cb_not_open cb_open cb_error rate_limit_exceeded cumulative_extension_cap_hit : Error
  illegal_market_state_transition fee_exceeds_max no_pending_fee_commit : Error
  fee_reveal_too_early fee_preimage_mismatch dispute_stake_cap_exceeded : Error
  insufficient_storage_rent_budget extension_cap_exceeded upgrade_chain_mismatch : Error
  oracle_quote_outlier : Error

-- the number that the host reports for an error, `Error as u32`
unfoldable pub code : Error → ℕ
code unauthorized = 100
code market_not_found = 101
code market_closed = 102
code market_resolved = 103
code market_not_resolved = 104
code nothing_to_claim = 105
code already_claimed = 106
code insufficient_stake = 107
code invalid_outcome = 108
code already_voted = 109
code already_bet = 110
code bets_already_placed = 111
code insufficient_balance = 112
code oracle_unavailable = 200
code invalid_oracle_config = 201
code oracle_stale = 202
code oracle_no_consensus = 203
code oracle_verified = 204
code market_not_ready = 205
code fallback_oracle_unavailable = 206
code resolution_timeout_reached = 207
code oracle_confidence_too_wide = 208
code invalid_oracle_feed = 209
code oracle_callback_auth_failed = 210
code oracle_callback_unauthorized = 211
code oracle_callback_invalid_signature = 212
code oracle_callback_replay_detected = 213
code oracle_callback_timeout = 214
code invalid_question = 300
code invalid_outcomes = 301
code invalid_duration = 302
code invalid_threshold = 303
code invalid_comparison = 304
code invalid_state = 400
code invalid_input = 401
code invalid_fee_config = 402
code config_not_found = 403
code already_disputed = 404
code dispute_vote_expired = 405
code dispute_vote_denied = 406
code dispute_already_voted = 407
code dispute_cond_not_met = 408
code dispute_fee_failed = 409
code dispute_error = 410
code disputer_cannot_vote = 438
code sweep_already_done = 411
code fee_arithmetic_overflow = 412
code fee_already_collected = 413
code no_fees_to_collect = 414
code invalid_extension_days = 415
code extension_denied = 416
code gas_budget_exceeded = 417
code operation_would_exceed_budget = 418
code admin_not_set = 419
code asset_decimals_mismatch = 439
code question_too_long = 420
code outcome_too_long = 421
code too_many_outcomes = 422
code feed_id_too_long = 423
code comparison_too_long = 424
code category_too_long = 425
code tag_too_long = 426
code too_many_tags = 427
code extension_reason_too_long = 428
code source_too_long = 429
code error_message_too_long = 430
code signature_too_long = 431
code too_many_extensions = 432
code too_many_oracle_results = 433
code too_many_winning_outcomes = 434
code force_resolve_already_used = 435
code archive_full = 440
code category_too_short = 436
code tag_too_short = 437
code duplicate_market_id = 441
code replayed_override = 442
code cb_not_initialized = 500
code cb_already_open = 501
code cb_not_open = 502
code cb_open = 503
code cb_error = 504
code rate_limit_exceeded = 505
code cumulative_extension_cap_hit = 506
code illegal_market_state_transition = 507
code fee_exceeds_max = 508
code no_pending_fee_commit = 519
code fee_reveal_too_early = 520
code fee_preimage_mismatch = 521
code dispute_stake_cap_exceeded = 522
code insufficient_storage_rent_budget = 523
code extension_cap_exceeded = 524
code upgrade_chain_mismatch = 525
code oracle_quote_outlier = 527
