-- ===== src/Encoder/State.antt =====
-- The data of Encoder.hpp.

-- `enum EncoderState`
pub data EncoderState : Type 0 where
  success format_context_error write_header_error avio_open_error : EncoderState
  already_init_error already_stop_error : EncoderState
  video_codec_error video_codec_context_error video_sws_get_context_error : EncoderState
  video_new_stream_error video_codec_open_error video_codecpar_error : EncoderState
  video_alloc_frame_error video_alloc_frame_buffer_error video_alloc_packet_error : EncoderState
  video_encode_error video_write_frame_error video_receive_packet_error : EncoderState
  audio_codec_error audio_codec_context_error audio_swr_alloc_error audio_swr_init_error :
      EncoderState
  audio_new_stream_error audio_codec_open_error audio_codecpar_error : EncoderState
  audio_alloc_frame_error audio_alloc_frame_buffer_error audio_alloc_packet_error : EncoderState
  audio_encode_error audio_swr_convert_error audio_write_frame_error : EncoderState
  audio_receive_packet_error encoder_stopped : EncoderState
