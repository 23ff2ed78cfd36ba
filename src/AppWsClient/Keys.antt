-- ===== src/AppWsClient/Keys.antt =====
-- The keywords and error messages at the top of src/app_ws_client.cc.
use rpi_webrtc_streamer.Base.{ℕ, Text, codes}

abbrev pub key_cmd : Text
key_cmd = codes "cmd"

abbrev pub key_data : Text
key_data = codes "data"

abbrev pub key_cmd_type : Text
key_cmd_type = codes "type"

abbrev pub key_transaction : Text
key_transaction = codes "transaction"

abbrev pub key_request_result : Text
key_request_result = codes "result"

abbrev pub value_result_success : Text
value_result_success = codes "SUCCESS"

abbrev pub value_result_failed : Text
value_result_failed = codes "FAILED"

abbrev pub key_request_error : Text
key_request_error = codes "error"

abbrev pub value_cmd_event : Text
value_cmd_event = codes "event"

abbrev pub value_type_error : Text
value_type_error = codes "error"

abbrev pub value_type_notice : Text
value_type_notice = codes "notice"

abbrev pub key_event_mesg : Text
key_event_mesg = codes "mesg"

abbrev pub value_cmd_register : Text
value_cmd_register = codes "register"

abbrev pub key_register_room_id : Text
key_register_room_id = codes "roomid"

abbrev pub key_register_client_id : Text
key_register_client_id = codes "clientid"

abbrev pub value_cmd_send : Text
value_cmd_send = codes "send"

abbrev pub key_send_message : Text
key_send_message = codes "msg"

abbrev pub key_send_type : Text
key_send_type = codes "type"

abbrev pub value_cmd_send_type_bye : Text
value_cmd_send_type_bye = codes "bye"

abbrev pub value_cmd_request : Text
value_cmd_request = codes "request"

abbrev pub value_cmd_response : Text
value_cmd_response = codes "response"

abbrev pub value_typep_device_info : Text
value_typep_device_info = codes "info"

abbrev pub data_key_device_id : Text
data_key_device_id = codes "deviceid"

abbrev pub data_key_mc_version : Text
data_key_mc_version = codes "mcversion"

abbrev pub data_key_still_capture : Text
data_key_still_capture = codes "stillcapture"

abbrev pub data_key_camera_enabled : Text
data_key_camera_enabled = codes "cameraenabled"

abbrev pub data_key_video43_aspect_ratio : Text
data_key_video43_aspect_ratio = codes "video43aspectratio"

abbrev pub value_type_rtc_config : Text
value_type_rtc_config = codes "rtcconfig"

abbrev pub value_type_config : Text
value_type_config = codes "config"

abbrev pub value_data_save : Text
value_data_save = codes "save"

abbrev pub value_data_read : Text
value_data_read = codes "read"

abbrev pub value_data_reset : Text
value_data_reset = codes "reset-to-default"

abbrev pub value_data_apply : Text
value_data_apply = codes "apply"

abbrev pub value_cmd_message : Text
value_cmd_message = codes "message"

abbrev pub key_data_command : Text
key_data_command = codes "command"

abbrev pub value_type_zoom : Text
value_type_zoom = codes "zoom"

abbrev pub value_data_x : Text
value_data_x = codes "x"

abbrev pub value_data_y : Text
value_data_y = codes "y"

abbrev pub value_command_zoom_in : Text
value_command_zoom_in = codes "in"

abbrev pub value_command_zoom_out : Text
value_command_zoom_out = codes "out"

abbrev pub value_command_zoom_reset : Text
value_command_zoom_reset = codes "reset"

abbrev pub value_command_zoom_move : Text
value_command_zoom_move = codes "move"

abbrev pub value_type_still : Text
value_type_still = codes "still"

abbrev pub value_still_data_width : Text
value_still_data_width = codes "width"

abbrev pub value_still_data_height : Text
value_still_data_height = codes "height"

abbrev pub value_still_data_camera_num : Text
value_still_data_camera_num = codes "cameraNum"

abbrev pub value_still_data_filename : Text
value_still_data_filename = codes "filename"

abbrev pub value_still_data_quality : Text
value_still_data_quality = codes "quality"

abbrev pub value_still_data_extension : Text
value_still_data_extension = codes "extension"

abbrev pub value_still_data_verbose : Text
value_still_data_verbose = codes "verbose"

abbrev pub value_still_data_force_capture : Text
value_still_data_force_capture = codes "force_capture"

abbrev pub value_still_data_url : Text
value_still_data_url = codes "url"

abbrev pub media_config_version : Text
media_config_version = codes "v0.75"

abbrev pub err_data_key_missing : Text
err_data_key_missing = codes "data key missing"

abbrev pub err_internal_error : Text
err_internal_error = codes "Unknown Internal Error"

abbrev pub err_client_or_room_id_not_found : Text
err_client_or_room_id_not_found = codes "No Client/Room ID found in register command"

abbrev pub err_register_client_or_room_id : Text
err_register_client_or_room_id = codes "Failed to register Client/Room ID in clientinfo"

abbrev pub err_invalid_json_message : Text
err_invalid_json_message = codes "Failed to parse Json Message in send command"

abbrev pub err_streamer_occupied : Text
err_streamer_occupied = codes "Streamer session is already in use by another user"

abbrev pub err_message_empy : Text
err_message_empy = codes "No json message in cmd send"

abbrev pub err_unknown_command_type : Text
err_unknown_command_type = codes "Unknown Command Type"

abbrev pub err_unknown_request_type : Text
err_unknown_request_type = codes "Unknown Request Type"

abbrev pub err_unknown_protocol_message : Text
err_unknown_protocol_message = codes "Unknown Protocol Message"

abbrev pub err_rtc_config : Text
err_rtc_config = codes "Failed to get RTC Configuration"

abbrev pub err_still_data_parse : Text
err_still_data_parse = codes "Failed to parse data of still parameters"

abbrev pub stream_release_delay : ℕ
stream_release_delay = 1000

abbrev pub max_chunked_frames : ℕ
max_chunked_frames = 5
