-- ===== src/Message.antt =====
-- ThermoCheck/Pods/nanopb/pb.h: the error text of a stream, and PB_SET_ERROR.
use thermo_check.Common.{Option, none, some}

-- The texts that PB_RETURN_ERROR stores in the functions of this library.
pub data Message : Type 0 where
  end_of_stream io_error varint_overflow invalid_wire_type : Message
  parent_stream_too_short invalid_data_size integer_too_large : Message
  bytes_overflow size_too_large string_overflow incorrect_fixed_length_bytes_size : Message
  stream_full bytes_size_exceeded invalid_field_type invalid_size realloc_failed : Message
  array_overflow too_many_array_entries callback_failed invalid_union_tag iterator_error : Message
  wrong_size_for_fixed_count_field missing_required_field invalid_field_descriptor : Message
  array_max_size_exceeded callback_error submsg_size_changed : Message

-- PB_SET_ERROR: the first message stays.
abbrev pub first_message : Option Message → Message → Option Message
first_message none m = some m
first_message (some old) m = some old
