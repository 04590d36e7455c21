-- ===== src/Commands/Dissect/Responses.antt =====
-- The `dissect` methods of the payloads that a device answers with, each up to its `str()`.
use libnitrokey.Prelude.{◌/◌, ◌%◌, List, [], ◌∷◌, ◌++◌, true, false}
use libnitrokey.Prelude.Bytes.{Bytes, le_value}
use libnitrokey.Misc.Hexdump.{hexdump}
use libnitrokey.Misc.Stream.{Item, text, bytes, number, int, hex, setw, setfill, endl, joined, str}
use libnitrokey.Manager.Interface.{payload_byte, payload_bytes, payload_u32}
use libnitrokey.Commands.Responses.{payload_u16}
use libnitrokey.Commands.Dissect.{
  line, truth, print_to_ss, print_to_ss_volatile, hexdump_to_ss, slot_config_lines,
  slot_token_id_line,
}

unfoldable pub dissect_get_slot_name : Bytes → List Item
dissect_get_slot_name payload = print_to_ss_volatile "slot_name" (payload_bytes 0 15 payload)

-- The response of both `GetTOTP` and `GetHOTP`.
unfoldable pub dissect_code : Bytes → List Item
dissect_code payload =
    line "code:\t" (number (payload_u32 0 payload)) ++ slot_config_lines (payload_byte 4 payload)

unfoldable pub dissect_read_slot : Bytes → List Item
dissect_read_slot payload =
    print_to_ss_volatile "slot_name" (payload_bytes 0 15 payload)
    ++ (slot_config_lines (payload_byte 15 payload)
        ++ (slot_token_id_line (payload_bytes 16 13 payload)
            ++ (text "slot_counter:\t["
                ∷ int (le_value (payload_bytes 29 8 payload))
                ∷ text "]\t"
                ∷ bytes (hexdump (payload_bytes 29 8 payload) false true true)
                ∷ [])))

-- Since `hex` stays, the numbers behind `card_serial_u32` are printed in hex.
unfoldable pub dissect_get_status : Bytes → List Item
dissect_get_status payload =
    text "firmware_version:\t"
    ∷ text "["
    ∷ number (payload_u16 0 payload)
    ∷ text "]"
    ∷ text "\t"
    ∷ bytes (hexdump (payload_bytes 0 2 payload) false true true)
    ∷ text "card_serial_u32:\t"
    ∷ hex
    ∷ number (payload_u32 2 payload)
    ∷ endl
    ∷ text "card_serial:\t"
    ∷ bytes (hexdump (payload_bytes 2 4 payload) false true true)
    ∷ text "general_config:\t"
    ∷ bytes (hexdump (payload_bytes 6 5 payload) false true true)
    ∷ (line "numlock:\t" (number (payload_byte 6 payload))
        ++ (line "capslock:\t" (number (payload_byte 7 payload))
            ++ (line "scrolllock:\t" (number (payload_byte 8 payload))
                ++ (line "enable_user_password:\t" (truth (payload_byte 9 payload))
                    ++ line "delete_user_password:\t" (truth (payload_byte 10 payload))))))

-- The response of `GetPasswordRetryCount` and of `GetUserPasswordRetryCount`.
unfoldable pub dissect_retry_count : Bytes → List Item
dissect_retry_count payload = line " password_retry_count\t" (number (payload_byte 0 payload))

unfoldable pub write_array : Bytes → List Item
write_array [] = endl ∷ []
write_array (b ∷ rest) = hex ∷ setfill b'0' ∷ setw 2 ∷ number b ∷ text " " ∷ write_array rest

unfoldable pub dissect_get_password_safe_slot_status : Bytes → List Item
dissect_get_password_safe_slot_status payload =
    text "password_safe_status\t" ∷ write_array (payload_bytes 0 16 payload)

unfoldable pub dissect_get_password_safe_slot_name : Bytes → List Item
dissect_get_password_safe_slot_name payload =
    print_to_ss_volatile "slot_name" (payload_bytes 0 11 payload)

unfoldable pub dissect_get_password_safe_slot_password : Bytes → List Item
dissect_get_password_safe_slot_password payload =
    print_to_ss_volatile "slot_password" (payload_bytes 0 20 payload)

unfoldable pub dissect_get_password_safe_slot_login : Bytes → List Item
dissect_get_password_safe_slot_login payload =
    print_to_ss_volatile "slot_login" (payload_bytes 0 32 payload)

unfoldable pub dissect_get_random : Bytes → List Item
dissect_get_random payload =
    print_to_ss "op_success" (number (payload_byte 0 payload))
    ++ (print_to_ss "size_effective" (number (payload_byte 1 payload))
        ++ hexdump_to_ss "data" (payload_bytes 2 51 payload))

-- `SendOTPData::ResponsePayload`
unfoldable pub dissect_send_otp_data : List Item
dissect_send_otp_data = text " Volatile data not logged" ∷ endl ∷ []

-- `TransmissionData::dissect`
unfoldable pub dissect_transmission_data : Bytes → List Item
dissect_transmission_data payload =
    text "_padding:"
    ∷ endl
    ∷ bytes (hexdump (payload_bytes 0 18 payload) true true true)
    ∷ (print_to_ss "static_cast<int>(SendCounter_u8)" (number (payload_byte 18 payload))
        ++ (print_to_ss "static_cast<int>(SendDataType_u8)" (number (payload_byte 19 payload))
            ++ (print_to_ss "static_cast<int>(FollowBytesFlag_u8)"
                  (number (payload_byte 20 payload))
                ++ (print_to_ss "static_cast<int>(SendSize_u8)"
                    (number (payload_byte 21 payload))))))

-- `DeviceConfigurationResponsePacket::ResponsePayload`
unfoldable pub dissect_device_configuration : Bytes → List Item
dissect_device_configuration payload = joined (
    print_to_ss "transmission_data.dissect()" (bytes (str (dissect_transmission_data payload)))
    ∷ print_to_ss "MagicNumber_StickConfig_u16" (number (payload_u16 22 payload))
    ∷ print_to_ss "static_cast<int>(ReadWriteFlagUncryptedVolume_u8)"
        (number (payload_byte 24 payload))
    ∷ print_to_ss "static_cast<int>(ReadWriteFlagCryptedVolume_u8)"
        (number (payload_byte 25 payload))
    ∷ print_to_ss "static_cast<int>(ReadWriteFlagHiddenVolume_u8)"
        (number (payload_byte 30 payload))
    ∷ print_to_ss "static_cast<int>(versionInfo.major)" (number (payload_byte 26 payload))
    ∷ print_to_ss "static_cast<int>(versionInfo.minor)" (number (payload_byte 27 payload))
    ∷ print_to_ss "static_cast<int>(versionInfo.build_iteration)" (number (payload_byte 29 payload))
    ∷ print_to_ss "static_cast<int>(FirmwareLocked_u8)" (number (payload_byte 31 payload))
    ∷ print_to_ss "static_cast<int>(NewSDCardFound_u8)" (number (payload_byte 32 payload))
    ∷ print_to_ss "static_cast<int>(NewSDCardFound_st.NewCard)"
        (number (payload_byte 32 payload % 2))
    ∷ print_to_ss "static_cast<int>(NewSDCardFound_st.Counter)"
        (number (payload_byte 32 payload / 2))
    ∷ print_to_ss "static_cast<int>(SDFillWithRandomChars_u8)" (number (payload_byte 33 payload))
    ∷ print_to_ss "ActiveSD_CardID_u32" (number (payload_u32 34 payload))
    ∷ print_to_ss "static_cast<int>(VolumeActiceFlag_u8)" (number (payload_byte 38 payload))
    ∷ print_to_ss "static_cast<int>(VolumeActiceFlag_st.unencrypted)"
        (number (payload_byte 38 payload % 2))
    ∷ print_to_ss "static_cast<int>(VolumeActiceFlag_st.encrypted)"
        (number (payload_byte 38 payload / 2 % 2))
    ∷ print_to_ss "static_cast<int>(VolumeActiceFlag_st.hidden)"
        (number (payload_byte 38 payload / 4 % 2))
    ∷ print_to_ss "static_cast<int>(NewSmartCardFound_u8)" (number (payload_byte 39 payload))
    ∷ print_to_ss "static_cast<int>(UserPwRetryCount)" (number (payload_byte 40 payload))
    ∷ print_to_ss "static_cast<int>(AdminPwRetryCount)" (number (payload_byte 41 payload))
    ∷ print_to_ss "ActiveSmartCardID_u32" (number (payload_u32 42 payload))
    ∷ print_to_ss "static_cast<int>(StickKeysNotInitiated)" (number (payload_byte 46 payload))
    ∷ [])

unfoldable pub dissect_get_sd_card_occupancy : Bytes → List Item
dissect_get_sd_card_occupancy payload = joined (
    print_to_ss "static_cast<int>(WriteLevelMin)" (number (payload_byte 0 payload))
    ∷ print_to_ss "static_cast<int>(WriteLevelMax)" (number (payload_byte 1 payload))
    ∷ print_to_ss "static_cast<int>(ReadLevelMin)" (number (payload_byte 2 payload))
    ∷ print_to_ss "static_cast<int>(ReadLevelMax)" (number (payload_byte 3 payload))
    ∷ [])

unfoldable pub dissect_production_test : Bytes → List Item
dissect_production_test payload = joined (
    print_to_ss "transmission_data.dissect()" (bytes (str (dissect_transmission_data payload)))
    ∷ print_to_ss "static_cast<int>(FirmwareVersion_au8[0])" (number (payload_byte 22 payload))
    ∷ print_to_ss "static_cast<int>(FirmwareVersion_au8[1])" (number (payload_byte 23 payload))
    ∷ print_to_ss "static_cast<int>(FirmwareVersionInternal_u8)" (number (payload_byte 24 payload))
    ∷ print_to_ss "static_cast<int>(SD_Card_Size_u8)" (number (payload_byte 25 payload))
    ∷ print_to_ss "CPU_CardID_u32" (number (payload_u32 26 payload))
    ∷ print_to_ss "SmartCardID_u32" (number (payload_u32 30 payload))
    ∷ print_to_ss "SD_CardID_u32" (number (payload_u32 34 payload))
    ∷ print_to_ss "static_cast<int>(SC_UserPwRetryCount)" (number (payload_byte 38 payload))
    ∷ print_to_ss "static_cast<int>(SC_AdminPwRetryCount)" (number (payload_byte 39 payload))
    ∷ print_to_ss "static_cast<int>(SD_Card_ManufacturingYear_u8)"
        (number (payload_byte 40 payload))
    ∷ print_to_ss "static_cast<int>(SD_Card_ManufacturingMonth_u8)"
        (number (payload_byte 41 payload))
    ∷ print_to_ss "SD_Card_OEM_u16" (number (payload_u16 42 payload))
    ∷ print_to_ss "SD_WriteSpeed_u16" (number (payload_u16 44 payload))
    ∷ print_to_ss "static_cast<int>(SD_Card_Manufacturer_u8)" (number (payload_byte 46 payload))
    ∷ [])
