-- ===== src/Protocol.antt =====
-- project_3/both.h: the constants that the two programs share.
use remotecopy.Base.{ℕ}

abbrev pub max_filename_length : ℕ
max_filename_length = 100

abbrev pub size_of_buf_size_var : ℕ
size_of_buf_size_var = 4

abbrev pub size_of_window_size_var : ℕ
size_of_window_size_var = 4

abbrev pub file_ok : ℕ
file_ok = 1

abbrev pub file_not_ok : ℕ
file_not_ok = 0

abbrev pub recv_flag_location : ℕ
recv_flag_location = 6

abbrev pub rcopy_responses_packet_length : ℕ
rcopy_responses_packet_length = 4

abbrev pub rr_flag : ℕ
rr_flag = 5

abbrev pub srej_flag : ℕ
srej_flag = 6

abbrev pub filename_flag : ℕ
filename_flag = 8

abbrev pub filename_response_flag : ℕ
filename_response_flag = 9

abbrev pub eof_flag : ℕ
eof_flag = 10

abbrev pub eof_ack_flag : ℕ
eof_ack_flag = 32

abbrev pub data_packet_flag : ℕ
data_packet_flag = 16

abbrev pub resent_srej_data_packet_flag : ℕ
resent_srej_data_packet_flag = 17

abbrev pub resent_timeout_data_packet_flag : ℕ
resent_timeout_data_packet_flag = 18
